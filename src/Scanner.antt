-- ===== src/Scanner.antt =====
-- What the code generator decides about names and imports: the helpers of
-- cmd/sysc-wayland-scanner/main.go. The conversion to camel case of the package strcase is a
-- parameter. A text is the list of its bytes.
pub mod Imports
use Prim.Native.Char.{code}
use Prim.Native.String.{String}
use sysc_wayland.Base.{
  ℕ, Bool, true, false, not, ◌&&◌, ◌||◌, List, [], ◌∷◌, ◌++◌, ◌==◌, if◌then◌else◌,
}

abbrev pub Text : Type 0
Text = List ℕ

abbrev bytes : String → Text
bytes String.[] = []
bytes (String.◌∷◌ c s) = code c ∷ bytes s

-- The parts of the structs that the helpers read.
pub record Arg : Type 0 where
  pub type_ : Text
  pub interface : Text

pub record Request : Type 0 where
  pub type_ : Text
  pub args : List Arg

pub record Event : Type 0 where
  pub args : List Arg

pub record Interface : Type 0 where
  pub name : Text
  pub requests : List Request
  pub events : List Event

pub record Protocol : Type 0 where
  pub name : Text
  pub interfaces : List Interface

-- A loop that returns true at the first element that passes, and false behind the last.
abbrev pub any {ℓ} : {A : Type ℓ} → (A → Bool) → List A → Bool
any f [] = false
any f (x ∷ xs) = if f x then true else any f xs

unfoldable pub same_text : Text → Text → Bool
same_text [] [] = true
same_text [] (b ∷ t) = false
same_text (a ∷ s) [] = false
same_text (a ∷ s) (b ∷ t) = a == b && same_text s t

-- `strings.HasPrefix(s, p)` and `strings.TrimPrefix(s, p)`.
unfoldable pub has_prefix : Text → Text → Bool
has_prefix s [] = true
has_prefix [] (b ∷ p) = false
has_prefix (a ∷ s) (b ∷ p) = a == b && has_prefix s p

unfoldable pub drop_text : Text → Text → Text
drop_text s [] = s
drop_text [] (b ∷ p) = []
drop_text (a ∷ s) (b ∷ p) = drop_text s p

unfoldable pub trim_prefix : Text → Text → Text
trim_prefix s p = if has_prefix s p then drop_text s p else s

-- `strings.TrimSuffix(s, p)`
unfoldable pub reversed : Text → Text
reversed [] = []
reversed (a ∷ s) = reversed s ++ (a ∷ [])

unfoldable pub trim_suffix : Text → Text → Text
trim_suffix s p = reversed (trim_prefix (reversed s) (reversed p))

abbrev pub wl_ : Text
wl_ = bytes "wl_"

abbrev pub xdg_ : Text
xdg_ = bytes "xdg_"

-- The Go name of a type: one of the generated package, of client, or of xdg_shell.
pub data GoName : Type 0 where
  own client_name xdg_name : Text → GoName

unfoldable pub has_destructor : Interface → Bool
has_destructor v = any (λ r. same_text r.type_ (bytes "destructor")) v.requests

-- The first loop of `writeNewIDAbsorber`: whether an event introduces an object.
unfoldable pub introduces : Interface → Bool
introduces v = any (λ e. any (λ arg. same_text arg.type_ (bytes "new_id")) e.args) v.events

unfoldable pub is_local_interface : Protocol → Text → Bool
is_local_interface protocol iface = any (λ v. same_text v.name iface) protocol.interfaces

-- The test of an argument in `requiresXDGImport`.
unfoldable pub is_foreign_xdg : Protocol → Arg → Bool
is_foreign_xdg protocol arg =
    not (is_local_interface protocol arg.interface) && has_prefix arg.interface xdg_

unfoldable pub requires_xdg_import : Protocol → Bool
requires_xdg_import protocol =
    any
      (λ iface.
        if any (λ request. any (is_foreign_xdg protocol) request.args) iface.requests
        then true
        else any (λ event. any (is_foreign_xdg protocol) event.args) iface.events)
      protocol.interfaces

-- `prefix` and `suffix` are flags, and `strcase_camel` is `strcase.ToCamel`.
module _ (prefix suffix : Text) (strcase_camel : Text → Text) where
  unfoldable pub to_camel : Text → Text
  to_camel s = strcase_camel (trim_suffix (trim_prefix s prefix) suffix)

  unfoldable pub to_camel_prefix : Text → Text → Text
  to_camel_prefix s p = strcase_camel (trim_prefix s p)

  unfoldable pub interface_name_for_arg : Protocol → Text → GoName
  interface_name_for_arg protocol iface =
      if is_local_interface protocol iface
      then own (to_camel iface)
      else if not (same_text protocol.name (bytes "wayland")) && has_prefix iface wl_
      then client_name (to_camel_prefix iface wl_)
      else if not (same_text protocol.name (bytes "xdg_shell")) && has_prefix iface xdg_
      then xdg_name (to_camel_prefix iface xdg_)
      else own (to_camel iface)

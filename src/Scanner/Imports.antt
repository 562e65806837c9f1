-- ===== src/Scanner/Imports.antt =====
-- The import of the package xdg_shell, and the names that need it.
use sysc_wayland.Base.{
  ◌≡◌, ◌⊎◌, refl, Bool, true, false, not, ◌&&◌, List, Bool-cases, inl, inr, if◌then◌else◌,
}
use mathlib.Core.List.{Memᴰ}
use sysc_wayland.Base.{ap, sym, ◌∙◌, [], ◌∷◌}
use sysc_wayland.Scanner.{
  Text, Arg, Request, Event, Interface, Protocol, any, GoName, own, client_name, xdg_name, xdg_,
  has_prefix, is_local_interface, is_foreign_xdg, requires_xdg_import, interface_name_for_arg,
}

any-Memᴰ {ℓ} :
    {A : Type ℓ} (f : A → Bool) (x : A) (xs : List A) → Memᴰ x xs → f x ≡ true → any f xs ≡ true
any-Memᴰ f x [] m h = elim m [ ]
any-Memᴰ f x (y ∷ ys) (Memᴰ.head e) h = rw (ap f (sym e) ∙ h) refl
any-Memᴰ f x (y ∷ ys) (Memᴰ.tail m) h = elim (Bool-cases (f y)) [
  | inl here ↦ rw here refl
  | inr later ↦ rw later (any-Memᴰ f x ys m h)
]

-- The arguments of the requests and of the events of an interface.
abbrev pub IsArgOf : Arg → Interface → Type 0
IsArgOf arg iface =
    ((r : Request) × Memᴰ r iface.requests × Memᴰ arg r.args)
    ⊎ ((e : Event) × Memᴰ e iface.events × Memᴰ arg e.args)

-- A name of the package xdg_shell.
unfoldable pub is_xdg : GoName → Bool
is_xdg (own s) = false
is_xdg (client_name s) = false
is_xdg (xdg_name s) = true

if_or : (a b : Bool) → b ≡ true → (if a then true else b) ≡ true
if_or true b h = refl
if_or false b h = h

-- The tests of `interfaceNameForArg`, one after the other.
by_tests :
    (is_local is_client other_protocol is_foreign : Bool) (a b c : Text)
    → is_xdg (
        if is_local
        then own a
        else if is_client
        then client_name b
        else if other_protocol && is_foreign
        then xdg_name c
        else own a)
      ≡ true
    → (not is_local && is_foreign) ≡ true
unfolding is_xdg
by_tests true is_client other_protocol is_foreign a b c h = cc
by_tests false true other_protocol is_foreign a b c h = cc
by_tests false false true true a b c h = refl
by_tests false false true false a b c h = cc
by_tests false false false is_foreign a b c h = cc

module _ (prefix suffix : Text) (strcase_camel : Text → Text) (protocol : Protocol) where
  xdg-foreign :
      (arg : Arg)
      → is_xdg (interface_name_for_arg prefix suffix strcase_camel protocol arg.interface) ≡ true
      → is_foreign_xdg protocol arg ≡ true
  unfolding interface_name_for_arg is_xdg is_foreign_xdg
  xdg-foreign arg h =
      by_tests (is_local_interface protocol arg.interface) _ _ (has_prefix arg.interface xdg_) _ _ _
        h

  -- If the Go name that the scanner finds for the interface of an argument, in a request or an event
  -- of the protocol, is one of the package xdg_shell, then it also finds that the import of this
  -- package is required.
  pub requires_xdg_import-interface_name_for_arg :
      (iface : Interface) (arg : Arg)
      → Memᴰ iface protocol.interfaces
      → IsArgOf arg iface
      → is_xdg (interface_name_for_arg prefix suffix strcase_camel protocol arg.interface) ≡ true
      → requires_xdg_import protocol ≡ true
  unfolding requires_xdg_import
  requires_xdg_import-interface_name_for_arg iface arg m place h =
      let found = xdg-foreign arg h in
      any-Memᴰ _ iface protocol.interfaces m (elim place [
        | inl (r, in_requests, in_args) ↦
            rw
              (any-Memᴰ (λ r. any (is_foreign_xdg protocol) r.args) r iface.requests in_requests
                (any-Memᴰ (is_foreign_xdg protocol) arg r.args in_args found))
              refl
        | inr (e, in_events, in_args) ↦ if_or _ _ (
            any-Memᴰ (λ e. any (is_foreign_xdg protocol) e.args) e iface.events in_events
              (any-Memᴰ (is_foreign_xdg protocol) arg e.args in_args found))
      ])

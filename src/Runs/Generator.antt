-- ===== src/Runs/Generator.antt =====
-- The decisions of the code generator on a small protocol.
use sysc_wayland.Base.{◌≡◌, refl, true, [], ◌∷◌, inl}
use mathlib.Core.List.{Memᴰ}
use sysc_wayland.Scanner.{
  Arg, Request, Interface, Protocol, requires_xdg_import, interface_name_for_arg,
  is_local_interface, has_prefix, same_text,
}
use sysc_wayland.Scanner.Imports.{is_xdg, requires_xdg_import-interface_name_for_arg}

-- An argument of type `xdg_a`, in the only request of the interface `b` of the protocol `p`.
abbrev foreign_arg : Arg
foreign_arg = record { type_ = []; interface = b'x' ∷ b'd' ∷ b'g' ∷ b'_' ∷ b'a' ∷ [] }

abbrev get_a : Request
get_a = record { type_ = []; args = foreign_arg ∷ [] }

abbrev b_interface : Interface
b_interface = record { name = b'b' ∷ []; requests = get_a ∷ []; events = [] }

abbrev p_protocol : Protocol
p_protocol = record { name = b'p' ∷ []; interfaces = b_interface ∷ [] }

requires_xdg_import-interface_name_for_arg_example : requires_xdg_import p_protocol ≡ true
unfolding interface_name_for_arg is_xdg is_local_interface has_prefix same_text
requires_xdg_import-interface_name_for_arg_example =
    requires_xdg_import-interface_name_for_arg [] [] (λ s. s) p_protocol b_interface foreign_arg
      (Memᴰ.head refl) (inl (get_a, Memᴰ.head refl, Memᴰ.head refl)) refl

-- ===== src/Bindings/Requests/DataDeviceManager.antt =====
-- The requests of client/client.go on a `DataDeviceManager`. An int32 or a fixed number is given by its bits.
use sysc_wayland.Base.{Option, [], ℕ, ◌∷◌}
use sysc_wayland.World.{Error, M, data_device, data_source, proxy_id}
use sysc_wayland.Wire.{word}
use sysc_wayland.Bindings.Requests.{create, destroy_quietly}

unfoldable pub create_data_source : ℕ → M (ℕ × Option Error)
create_data_source p = create data_source p 0 (λ id w. word id ∷ [])

unfoldable pub get_data_device : ℕ → ℕ → M (ℕ × Option Error)
get_data_device p seat_ref =
    create data_device p 1 (λ id w. word id ∷ word (proxy_id seat_ref w) ∷ [])

unfoldable pub destroy : ℕ → M (Option Error)
destroy p = destroy_quietly p

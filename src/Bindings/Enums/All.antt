-- ===== src/Bindings/Enums/All.antt =====
-- All enumerations of the packages client, cursorshape, sessionlock and textinput.
use sysc_wayland.Base.{List, [], ◌∷◌}
use sysc_wayland.Bindings.Enums.{Enum}
use sysc_wayland.Bindings.Enums.DisplayError
use sysc_wayland.Bindings.Enums.ShmError
use sysc_wayland.Bindings.Enums.ShmFormat
use sysc_wayland.Bindings.Enums.DataOfferError
use sysc_wayland.Bindings.Enums.DataSourceError
use sysc_wayland.Bindings.Enums.DataDeviceError
use sysc_wayland.Bindings.Enums.DataDeviceManagerDndAction
use sysc_wayland.Bindings.Enums.ShellError
use sysc_wayland.Bindings.Enums.ShellSurfaceResize
use sysc_wayland.Bindings.Enums.ShellSurfaceTransient
use sysc_wayland.Bindings.Enums.ShellSurfaceFullscreenMethod
use sysc_wayland.Bindings.Enums.SurfaceError
use sysc_wayland.Bindings.Enums.SeatCapability
use sysc_wayland.Bindings.Enums.SeatError
use sysc_wayland.Bindings.Enums.PointerError
use sysc_wayland.Bindings.Enums.PointerButtonState
use sysc_wayland.Bindings.Enums.PointerAxis
use sysc_wayland.Bindings.Enums.PointerAxisSource
use sysc_wayland.Bindings.Enums.PointerAxisRelativeDirection
use sysc_wayland.Bindings.Enums.KeyboardKeymapFormat
use sysc_wayland.Bindings.Enums.KeyboardKeyState
use sysc_wayland.Bindings.Enums.OutputSubpixel
use sysc_wayland.Bindings.Enums.OutputTransform
use sysc_wayland.Bindings.Enums.OutputMode
use sysc_wayland.Bindings.Enums.SubcompositorError
use sysc_wayland.Bindings.Enums.SubsurfaceError
use sysc_wayland.Bindings.Enums.CursorShapeDeviceShape
use sysc_wayland.Bindings.Enums.CursorShapeDeviceError
use sysc_wayland.Bindings.Enums.TabletToolType
use sysc_wayland.Bindings.Enums.TabletToolCapability
use sysc_wayland.Bindings.Enums.TabletToolButtonState
use sysc_wayland.Bindings.Enums.TabletToolError
use sysc_wayland.Bindings.Enums.TabletPadRingSource
use sysc_wayland.Bindings.Enums.TabletPadStripSource
use sysc_wayland.Bindings.Enums.TabletPadButtonState
use sysc_wayland.Bindings.Enums.SessionLockError
use sysc_wayland.Bindings.Enums.SessionLockSurfaceError
use sysc_wayland.Bindings.Enums.TextInputChangeCause
use sysc_wayland.Bindings.Enums.TextInputContentHint
use sysc_wayland.Bindings.Enums.TextInputContentPurpose

abbrev pub enums : List Enum
enums =
    DisplayError.enum ∷ ShmError.enum ∷ ShmFormat.enum ∷ DataOfferError.enum ∷ DataSourceError.enum
    ∷ DataDeviceError.enum ∷ DataDeviceManagerDndAction.enum ∷ ShellError.enum
    ∷ ShellSurfaceResize.enum ∷ ShellSurfaceTransient.enum ∷ ShellSurfaceFullscreenMethod.enum
    ∷ SurfaceError.enum ∷ SeatCapability.enum ∷ SeatError.enum ∷ PointerError.enum
    ∷ PointerButtonState.enum ∷ PointerAxis.enum ∷ PointerAxisSource.enum
    ∷ PointerAxisRelativeDirection.enum ∷ KeyboardKeymapFormat.enum ∷ KeyboardKeyState.enum
    ∷ OutputSubpixel.enum ∷ OutputTransform.enum ∷ OutputMode.enum ∷ SubcompositorError.enum
    ∷ SubsurfaceError.enum ∷ CursorShapeDeviceShape.enum ∷ CursorShapeDeviceError.enum
    ∷ TabletToolType.enum ∷ TabletToolCapability.enum ∷ TabletToolButtonState.enum
    ∷ TabletToolError.enum ∷ TabletPadRingSource.enum ∷ TabletPadStripSource.enum
    ∷ TabletPadButtonState.enum ∷ SessionLockError.enum ∷ SessionLockSurfaceError.enum
    ∷ TextInputChangeCause.enum ∷ TextInputContentHint.enum ∷ TextInputContentPurpose.enum ∷ []

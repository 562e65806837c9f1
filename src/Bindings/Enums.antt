-- ===== src/Bindings/Enums.antt =====
-- The enumerations of the generated packages: their constants, and the methods `Name`, `Value` and
-- `String`, which are switches. One file for each enumeration.
pub mod DisplayError
pub mod ShmError
pub mod ShmFormat
pub mod DataOfferError
pub mod DataSourceError
pub mod DataDeviceError
pub mod DataDeviceManagerDndAction
pub mod ShellError
pub mod ShellSurfaceResize
pub mod ShellSurfaceTransient
pub mod ShellSurfaceFullscreenMethod
pub mod SurfaceError
pub mod SeatCapability
pub mod SeatError
pub mod PointerError
pub mod PointerButtonState
pub mod PointerAxis
pub mod PointerAxisSource
pub mod PointerAxisRelativeDirection
pub mod KeyboardKeymapFormat
pub mod KeyboardKeyState
pub mod OutputSubpixel
pub mod OutputTransform
pub mod OutputMode
pub mod SubcompositorError
pub mod SubsurfaceError
pub mod CursorShapeDeviceShape
pub mod CursorShapeDeviceError
pub mod TabletToolType
pub mod TabletToolCapability
pub mod TabletToolButtonState
pub mod TabletToolError
pub mod TabletPadRingSource
pub mod TabletPadStripSource
pub mod TabletPadButtonState
pub mod SessionLockError
pub mod SessionLockSurfaceError
pub mod TextInputChangeCause
pub mod TextInputContentHint
pub mod TextInputContentPurpose
pub mod All
pub mod Numerals
pub mod Sound
use Prim.Native.String.{String, ◌++◌}
use sysc_wayland.Base.{ℕ, List, [], ◌∷◌, ◌==◌, if◌then◌else◌}

-- The cases of a `switch e`, each of which returns a text.
abbrev pub Switch : Type 0
Switch = List (ℕ × String)

-- The switch, whose default case returns the empty text.
abbrev pub select : Switch → ℕ → String
select [] e = ""
select ((k, s) ∷ cases) e = if e == k then s else select cases e

pub record Enum : Type 0 where
  pub constants : List ℕ
  pub names : Switch
  pub values : Switch

unfoldable pub name : Enum → ℕ → String
name enum = select enum.names

unfoldable pub value : Enum → ℕ → String
value enum = select enum.values

unfoldable pub to_string : Enum → ℕ → String
to_string enum e = name enum e ++ "=" ++ value enum e

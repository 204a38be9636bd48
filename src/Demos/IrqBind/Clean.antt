-- ===== src/Demos/IrqBind/Clean.antt =====
-- The program that binds an interrupt ends, once the user stops it, and has closed and freed what it
-- opened and allocated.
use mcu_co_sdk.Os.Ends.{Ends}
use mcu_co_sdk.System.{System}
use mcu_co_sdk.System.Laws.{Laws}
use mcu_co_sdk.Mcuco.Handle.{Handle}
use mcu_co_sdk.Demos.Closes.{Closes}

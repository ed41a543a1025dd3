-- ===== src/Monitor/Tests.antt =====
-- Runs of src/monitor.c: output at the last cell of the screen, and two numbers.
use my_own_os.Prelude.{◌≡◌, [], ◌∷◌, arith}
use my_own_os.Monitor.{Screen, monitor_write, decimal}
use my_own_os.Monitor.Cursor.{IsOnScreen, KeepsRest, monitor_write-IsOnScreen}
use my_own_os.Monitor.Decimal.{AllDigits, parse, parse-decimal}

abbrev corner : Screen
corner = record { video = λ i. 0; cursor_x = 79; cursor_y = 24 }

corner-IsOnScreen : IsOnScreen corner
corner-IsOnScreen = record { column = omega arith; row = omega arith }

write_example :
    IsOnScreen (monitor_write (65 ∷ 9 ∷ 10 ∷ []) corner)
    × KeepsRest corner (monitor_write (65 ∷ 9 ∷ 10 ∷ []) corner)
write_example = monitor_write-IsOnScreen (65 ∷ 9 ∷ 10 ∷ []) corner corner-IsOnScreen

decimal_example : AllDigits (decimal 1234) × (parse 0 (decimal 1234) ≡ 1234)
decimal_example = parse-decimal 1234 (omega arith)

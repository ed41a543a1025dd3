-- ===== src/Monitor/Cursor.antt =====
-- Output of src/monitor.c stays on the screen.
use my_own_os.Prelude.{ℕ, ◌≤◌, ◌<◌, ◌≡◌, refl, ◌∙◌, List, [], ◌∷◌, arith}
use my_own_os.Monitor.{Screen, scroll, wrap, place, monitor_put, monitor_write}

-- The cursor is on one of the 25 rows of 80.
pub record IsOnScreen (s : Screen) : Type 0 where
  pub column : s.cursor_x < 80
  pub row : s.cursor_y < 25

-- The cells behind the screen are as before.
abbrev pub KeepsRest : Screen → Screen → Type 0
KeepsRest s s' = (i : ℕ) → 2000 ≤ i → s'.video i ≡ s.video i

-- After a character is placed, the cursor may stand behind the row or below the last row.
record IsPlaced (s : Screen) : Type 0 where
  column : s.cursor_x ≤ 80
  row : s.cursor_y ≤ 25
  corner : s.cursor_y ≡ 25 → s.cursor_x ≡ 0

place-IsPlaced : (c : ℕ) (s : Screen) → IsOnScreen s → IsPlaced (place c s)
place-IsPlaced c s on = record {
  column = ground (arith, on.column, on.row);
  row = ground (arith, on.column, on.row);
  corner = ground (arith, on.column, on.row);
}

place-KeepsRest : (c : ℕ) (s : Screen) → IsOnScreen s → KeepsRest s (place c s)
place-KeepsRest c s on i h = ground (arith, on.column, on.row)

wrap-scroll-IsOnScreen : (s : Screen) → IsPlaced s → IsOnScreen (scroll (wrap s))
wrap-scroll-IsOnScreen s p = record {
  column = ground (arith, p.column, p.row, p.corner);
  row = ground (arith, p.column, p.row, p.corner);
}

wrap-scroll-KeepsRest : (s : Screen) → KeepsRest s (scroll (wrap s))
wrap-scroll-KeepsRest s i h = ground arith

pub monitor_put-IsOnScreen :
    (c : ℕ) (s : Screen)
    → IsOnScreen s
    → IsOnScreen (monitor_put c s) × KeepsRest s (monitor_put c s)
unfolding monitor_put
monitor_put-IsOnScreen c s on = (
  wrap-scroll-IsOnScreen (place c s) (place-IsPlaced c s on),
  λ i h. wrap-scroll-KeepsRest (place c s) i h ∙ place-KeepsRest c s on i h,
)

-- From a cursor on the screen, writing any string leaves the cursor on the screen, and changes no
-- cell behind the screen.
pub monitor_write-IsOnScreen :
    (cs : List ℕ) (s : Screen)
    → IsOnScreen s
    → IsOnScreen (monitor_write cs s) × KeepsRest s (monitor_write cs s)
unfolding monitor_write
monitor_write-IsOnScreen [] s on = (on, λ i h. refl)
monitor_write-IsOnScreen (c ∷ cs) s on =
    let (on1, keeps) = monitor_put-IsOnScreen c s on in
    let (on2, keeps2) = monitor_write-IsOnScreen cs (monitor_put c s) on1 in
    (on2, λ i h. keeps2 i h ∙ keeps i h)

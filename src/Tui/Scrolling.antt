-- ===== src/Tui/Scrolling.antt =====
-- `scroll` of internal/tui/model.go: where the cursor and the viewport stand afterwards.
use wfm.Prelude.{
  ℕ, ◌+◌, ◌-◌, ◌≤◌, ◌<◌, min, List, [], ◌∷◌, ◌≡◌, ◌≢◌, refl, sym, arith, nat_eq, ltb, if◌then◌else◌,
  length,
}
use wfm.Server.Messages.{AccessPoint}
use wfm.Tui.Model.{Model, scroll_off, Dir, down, up, still, revealed, clamped, scroll}

-- The cursor is on a row of the viewport, and the viewport does not run past the end of the list
-- while there is more above it.
abbrev pub InView : (n rows cursor top : ℕ) → Type 0
InView n rows cursor top = (top ≤ cursor) × (cursor < top + rows) × (top ≤ n - rows)

pub clamped-InView :
    (n rows cursor top : ℕ)
    → cursor < n
    → 1 ≤ rows
    → InView n rows cursor (clamped n rows cursor top)
unfolding clamped
clamped-InView n rows cursor top h r = ground arith

-- The rows that the cursor's direction of travel keeps in the viewport.
abbrev pub HasMargin : Dir → (n rows cursor top : ℕ) → Type 0
HasMargin down n rows cursor top = min (cursor + min scroll_off (rows - 1)) (n - 1) < top + rows
HasMargin up n rows cursor top = top ≤ cursor - min scroll_off (rows - 1)
HasMargin still n rows cursor top = Unit

clamped-HasMargin :
    (dir : Dir) (n rows cursor top : ℕ)
    → cursor < n
    → 1 ≤ rows
    → let off = if ltb (rows - 1) scroll_off then rows - 1 else scroll_off in
      HasMargin dir n rows cursor (clamped n rows cursor (revealed dir n rows cursor off top))
unfolding clamped revealed
clamped-HasMargin down n rows cursor top h r = ground arith
clamped-HasMargin up n rows cursor top h r = ground arith
clamped-HasMargin still n rows cursor top h r = tt

length_of_some : (aps : List AccessPoint) → aps ≢ [] → 1 ≤ length aps
length_of_some [] e = absurd (e refl)
length_of_some (a ∷ aps) e = omega arith

cursor_eq : (n i : ℕ) → (if ltb (n - 1) i then n - 1 else i) ≡ min i (n - 1)
cursor_eq n i = ground arith

pub scroll_eq :
    (rows : ℕ) (dir : Dir) (m : Model)
    → 1 ≤ length m.aps
    → 1 ≤ rows
    → let n = length m.aps in
      let cursor = min m.ap_index (n - 1) in
      let off = if ltb (rows - 1) scroll_off then rows - 1 else scroll_off in
      scroll rows dir m ≡ record m {
        ap_index = cursor;
        top = clamped n rows cursor (revealed dir n rows cursor off m.top);
      }
unfolding scroll
scroll_eq rows dir m h r = rw (sym (cursor_eq (length m.aps) m.ap_index)) (ground arith)

pub scroll_aps : (rows : ℕ) (dir : Dir) (m : Model) → (scroll rows dir m).aps ≡ m.aps
unfolding scroll
scroll_aps rows dir m = ground arith

pub scroll_nil :
    (rows : ℕ) (dir : Dir) (m : Model) → length m.aps ≡ 0 → scroll rows dir m ≡ record m { top = 0 }
unfolding scroll
scroll_nil rows dir m e = ground arith

-- After scrolling a list that is not empty by at least one row, the cursor has moved only to stay
-- on the list, it is in the viewport, the viewport ends at the list's end at the latest, and in
-- the direction of travel five rows, or as many as fit the viewport and the list, are visible
-- ahead of the cursor.
pub scroll_lem :
    (rows : ℕ) (dir : Dir) (m : Model)
    → m.aps ≢ []
    → 1 ≤ rows
    → let n = length m.aps in
      let m' = scroll rows dir m in
      (m'.aps ≡ m.aps)
      × (m'.ap_index ≡ min m.ap_index (n - 1))
      × InView n rows m'.ap_index m'.top
      × HasMargin dir n rows m'.ap_index m'.top
scroll_lem rows dir m e r =
    let n = length m.aps in
    let cursor = min m.ap_index (n - 1) in
    let off = if ltb (rows - 1) scroll_off then rows - 1 else scroll_off in
    let top = revealed dir n rows cursor off m.top in
    let some_aps : 1 ≤ n = length_of_some m.aps e in
    rw (scroll_eq rows dir m some_aps r) (
      refl,
      refl,
      clamped-InView n rows cursor top (omega (arith, some_aps)) r,
      clamped-HasMargin dir n rows cursor m.top (omega (arith, some_aps)) r,
    )

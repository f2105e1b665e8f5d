-- ===== src/Mrt/Format.antt =====
-- `mrt_format` of fs/smkfs/mrt.c leaves a table without allocated entries.
use amit_x.Prelude.{ℕ, ◌+◌, ◌≤◌, ◌<◌, ◌≡◌, List, replicate, ◌⊎◌}
use amit_x.Mrt.{Entry, Calls, Mrt, Status, ok, err_io, blank, entries_per_block}
use amit_x.Mrt.Laws.{FailedWrite, CallsLaws}

module _ {S : Type 0} {calls : Calls S} {start blocks : ℕ}
    (laws : CallsLaws calls start blocks) where
  abbrev empty : List Entry
  empty = replicate entries_per_block blank

  -- The loop has written the `n` blocks from `start + i` on and no other, or a write has failed.
  abbrev Formatted : ℕ → ℕ → S → Status → S → Type 0
  Formatted n i s st s' =
      ((st ≡ ok)
        × ((x : ℕ) → start + i ≤ x → x < start + i + n → laws.view s' x ≡ empty)
        × ((x : ℕ) → (x < start + i) ⊎ (start + i + n ≤ x) → laws.view s' x ≡ laws.view s x))
      ⊎ ((st ≡ err_io) × ((b : ℕ) × (start ≤ b) × FailedWrite laws b))

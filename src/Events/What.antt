-- ===== src/Events/What.antt =====
-- src/wte/what.h: what a handler watches, and how one direction is added or taken away.
use what_the_event.Common.{◌≡◌, refl, Bool, true, false}

pub data What : Type 0 where
  none read write read_write : What

unfoldable pub is_read : What → Bool
is_read What.read = true
is_read What.read_write = true
is_read _ = false

unfoldable pub is_write : What → Bool
is_write What.write = true
is_write What.read_write = true
is_write _ = false

-- `what | WRITE`
unfoldable pub ensure_write : What → What
ensure_write What.read = What.read_write
ensure_write _ = What.write

-- `what | READ`
unfoldable pub ensure_read : What → What
ensure_read What.write = What.read_write
ensure_read _ = What.read

unfoldable pub remove_write : What → What
remove_write What.read_write = What.read
remove_write What.read = What.read
remove_write _ = What.none

-- A value is what it reads and writes.
abbrev pub Watches : What → Bool → Bool → Type 0
Watches w r s = (is_read w ≡ r) × (is_write w ≡ s)

-- `ensureRead` and `ensureWrite` are meant to add one direction and keep the other, `removeWrite` to
-- take writing away and keep reading. `ensureRead` and `ensureWrite` do so for every value but
-- READ_WRITE, of which each keeps its own direction only; `removeWrite` does so for all.
pub directions :
    (w : What)
    → (w ≡ What.read_write → ⊥)
    → Watches (ensure_read w) true (is_write w)
      × Watches (ensure_write w) (is_read w) true
      × Watches (remove_write w) (is_read w) false
unfolding is_read is_write ensure_read ensure_write remove_write
directions What.none h = ((refl, refl), (refl, refl), (refl, refl))
directions What.read h = ((refl, refl), (refl, refl), (refl, refl))
directions What.write h = ((refl, refl), (refl, refl), (refl, refl))
directions What.read_write h = absurd (h refl)

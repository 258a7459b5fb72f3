-- ===== src/Base/Counts.antt =====
-- How often a number stands in a list, and the list without the element at one place.
use Prim.Native.Nat.{ℕ, zero, suc, ◌+◌, ◌<◌}
use mathlib.Core.Path.{◌≡◌}
use mathlib.Core.List.{List, [], ◌∷◌}
use native.Mathlib.Omega.{arith}
use op_sys.Base.Tests.{◌==◌, if◌then◌else◌, ==_self}
use op_sys.Base.Lists.{length, get_or, All}
use op_sys.Base.Sums.{total}

abbrev pub is_of : ℕ → ℕ → ℕ
is_of i h = if h == i then 1 else 0

abbrev pub count : ℕ → List ℕ → ℕ
count i hs = total (is_of i) hs

abbrev pub remove : List ℕ → ℕ → List ℕ
remove [] k = []
remove (h ∷ hs) zero = hs
remove (h ∷ hs) (suc k) = h ∷ remove hs k

pub count-remove :
    (hs : List ℕ) (k i : ℕ)
    → k < length hs
    → count i (remove hs k) + is_of i (get_or hs k 0) ≡ count i hs
unfolding total
count-remove [] k i h = absurd (omega arith)
count-remove (h ∷ hs) zero i l = omega arith
count-remove (h ∷ hs) (suc k) i l = omega (arith, count-remove hs k i (omega arith))

pub count_held : (hs : List ℕ) (k : ℕ) → k < length hs → 0 < count (get_or hs k 0) hs
count_held hs k h = ground (arith, count-remove hs k (get_or hs k 0) h, ==_self (get_or hs k 0))

pub length-remove : (hs : List ℕ) (k : ℕ) → k < length hs → length (remove hs k) + 1 ≡ length hs
length-remove [] k h = absurd (omega arith)
length-remove (x ∷ hs) zero h = omega arith
length-remove (x ∷ hs) (suc k) h = omega (arith, length-remove hs k (omega arith))

pub All-remove {κ} : (P : ℕ → Type κ) (hs : List ℕ) (k : ℕ) → All P hs → All P (remove hs k)
All-remove P [] k h = h
All-remove P (x ∷ hs) zero h = h.1
All-remove P (x ∷ hs) (suc k) h = (h.0, All-remove P hs k h.1)

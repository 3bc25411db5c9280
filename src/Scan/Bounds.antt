-- ===== src/Scan/Bounds.antt =====
-- Where a search stops.
use Prim.Native.String.{String, len, ◌++◌, begins, slice, find}
use Prim.Native.String.append
use Prim.Native.String.find
use Prim.Native.String.len
use Prim.Native.Char.{code, len_utf8}
use text.Mathlib.TextPositions.{slice_all, len-append, compare_self}
use text.Mathlib.TextFind.{begins_cases}
use hl_maker_lighter_arb_cpp.Common.{ℕ, ◌+◌, ◌≤◌, ◌≡◌, some, refl, true, inl, inr, arith}
use hl_maker_lighter_arb_cpp.Scan.{find_from, skip, contains}

pub find_from-le :
    (s t : String) (p : ℕ) {q : ℕ} → find_from s t p ≡ some q → (p ≤ q) × (q + len t ≤ len s)
unfolding find_from
find_from-le s t p h = ground arith

pub skip-le : (t : _) (s : String) (p : ℕ) → p ≤ skip t s p
unfolding skip
skip-le t s p = omega arith

-- A text stands where it was put, or earlier.
begins-append : (t v : String) (y n : ℕ) → begins (t ++ v) t y n ≡ y
begins-append String.[] v y n = refl
begins-append (String.◌∷◌ c t) v y n =
    rw (append.cons c t v) (rw (compare_self (code c)) (begins-append t v y n))

find_unfolds : (s t : String) → (n : ℕ) × (find s t ≡ begins s t 0 n)
find_unfolds String.[] t = (1, find.nil t)
find_unfolds (String.◌∷◌ c s) t = (len_utf8 c + find s t, find.cons c s t)

find-append : (u t v : String) → find (u ++ (t ++ v)) t ≤ len u
find-append String.[] t v =
    let (n, at) = find_unfolds (t ++ v) t in
    rw (append.nil (t ++ v)) (omega (arith, at, begins-append t v 0 n))
find-append (String.◌∷◌ c u) t v =
    let s = u ++ (t ++ v) in
    let later = find-append u t v in
    rw (append.cons c u (t ++ v))
      (elim (begins_cases (String.◌∷◌ c s) t 0 (len_utf8 c + find s t)) [
        | inl (hit, _) ↦ omega (arith, find.cons c s t, hit, len.cons c u)
        | inr miss ↦ omega (arith, find.cons c s t, miss, len.cons c u, later)
      ])

pub contains-append : (u t v : String) → contains (u ++ (t ++ v)) t ≡ true
unfolding contains find_from
contains-append u t v =
    let s = u ++ (t ++ v) in
    let whole : slice s 0 (len s) ≡ s = slice_all s in
    ground (arith, whole, find-append u t v, len-append u (t ++ v), len-append t v)

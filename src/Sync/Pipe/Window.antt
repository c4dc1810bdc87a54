-- ===== src/Sync/Pipe/Window.antt =====
-- The bytes that a ring holds, oldest first.
use cofuos.Prelude.{
  ℕ, zero, suc, ◌+◌, ◌-◌, ◌≤◌, ◌<◌, List, [], ◌∷◌, ◌++◌, ◌≡◌, refl, ap, length, get_or, set,
  get_or-set_self, get_or-set_ne, ltb, if◌then◌else◌, arith,
}
use mathlib.Core.Path.{ap₂}
use cofuos.Sync.Pipe.{advance}

-- The `n` bytes from index `h` on, going round at `limit`.
abbrev pub window : List ℕ → ℕ → ℕ → ℕ → List ℕ
window buffer limit h zero = []
window buffer limit h (suc n) = get_or buffer h 0 ∷ window buffer limit (advance limit h) n

pub length-window : (buffer : List ℕ) (limit h n : ℕ) → length (window buffer limit h n) ≡ n
length-window buffer limit h zero = refl
length-window buffer limit h (suc n) = ap suc (length-window buffer limit (advance limit h) n)

-- The index `n` places after `h`.
abbrev pub around : ℕ → ℕ → ℕ → ℕ
around limit h n = if ltb (h + n) limit then h + n else h + n - limit

-- A byte written just behind a window extends it.
pub window-set :
    (buffer : List ℕ) (limit b n h i : ℕ)
    → limit ≤ length buffer
    → h < limit
    → n < limit
    → i ≡ around limit h n
    → window (set buffer i b) limit h (suc n) ≡ window buffer limit h n ++ (b ∷ [])
window-set buffer limit b zero h i room hl nl e =
    let e' : i ≡ h = ground arith in
    rw e' (ap (λ v. v ∷ []) (get_or-set_self buffer h b 0 (omega arith)))
window-set buffer limit b (suc n) h i room hl nl e =
    ap₂ ◌∷◌ (get_or-set_ne buffer i h b 0 (ground arith)) (
      window-set buffer limit b n (advance limit h) i room (ground arith) (omega arith)
        (ground arith))

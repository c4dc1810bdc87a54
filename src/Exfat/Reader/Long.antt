-- ===== src/Exfat/Reader/Long.antt =====
-- Sets of records with one name record, and with two.
use cofuos.Prelude.{
  ℕ, ◌+◌, ◌≤◌, ◌≡◌, refl, ◌≢◌, inl, inr, true, false, ltb, ◌==◌, not, ◌&&◌, if◌then◌else◌, List, [],
  ◌∷◌, arith, Bool-cases, ◌∙◌,
}
use cofuos.Exfat.Reader.{Record, byte_at, word_at, checksum, keep, on_name, on_record, step}
use cofuos.Exfat.Reader.Sets.{IsPrimary, IsStream, IsName}

primary_kept :
    (mode hash : ℕ) (list : List Record) (r : Record)
    → mode ≢ 0
    → IsPrimary mode r
    → (on_record mode hash list r ≡ keep (r ∷ [])) × ((byte_at r 0 == 0) ≡ false)
primary_kept mode hash list r m (t, two, k) =
    let g : (not (mode == 0) && ltb 128 (byte_at r 0)) ≡ true = ground arith in
    let is : (byte_at r 0 == 133) ≡ true = ground arith in
    let e : ltb (byte_at r 1) 2 ≡ false = ground arith in (rw (g, is, e, k) refl, ground arith)

stream_kept :
    (mode hash : ℕ) (p r : Record)
    → mode ≢ 0
    → IsStream mode hash r
    → (on_record mode hash (p ∷ []) r ≡ keep (p ∷ r ∷ [])) × ((byte_at r 0 == 0) ≡ false)
stream_kept mode hash p r m (t, k) =
    let g : (not (mode == 0) && ltb 128 (byte_at r 0)) ≡ true = ground arith in
    let no : (byte_at r 0 == 133) ≡ false = ground arith in
    let is : (byte_at r 0 == 192) ≡ true = ground arith in (rw (g, no, is, k) refl, ground arith)

name_record :
    (mode hash : ℕ) (list : List Record) (r : Record)
    → mode ≢ 0
    → IsName r
    → (on_record mode hash list r ≡ on_name list r) × ((byte_at r 0 == 0) ≡ false)
name_record mode hash list r m t =
    let g : (not (mode == 0) && ltb 128 (byte_at r 0)) ≡ true = ground arith in
    let no : (byte_at r 0 == 133) ≡ false = ground arith in
    let nor : (byte_at r 0 == 192) ≡ false = ground arith in
    let is : (byte_at r 0 == 193) ≡ true = ground arith in (rw (g, no, nor, is) refl, ground arith)

-- The primary record says that there are two secondary records, or three: three records are compared with its checksum.
pub step-three :
    (mode hash last index : ℕ) (p s n : Record) (rest : List Record)
    → mode ≢ 0
    → IsPrimary mode p
    → byte_at p 1 ≤ 3
    → IsStream mode hash s
    → IsName n
    → let set = p ∷ s ∷ n ∷ [] in
      let missed = step mode hash last (index + 3) [] rest in
      step mode hash last index [] (p ∷ s ∷ n ∷ rest)
      ≡ (if checksum set == word_at p 2 then (0, set, index + 3) else missed)
unfolding step
step-three mode hash last index p s n rest m hp three hs hn =
    let a = primary_kept mode hash [] p m hp in
    let b = stream_kept mode hash p s m hs in
    let c = name_record mode hash (p ∷ s ∷ []) n m hn in
    let i : index + 1 + 1 + 1 ≡ index + 3 = omega arith in
    let k : ltb 3 (byte_at p 1) ≡ false = ground arith in
    elim (Bool-cases (checksum (p ∷ s ∷ n ∷ []) == word_at p 2)) [
      | inl e ↦ rw (a.1, a.0, b.1, b.0, c.1, c.0, k, e, i) refl
      | inr e ↦ rw (a.1, a.0, b.1, b.0, c.1, c.0, k, e, i) refl
    ]

-- A file whose name has two name records, so that three records follow the primary one, is passed over by a search
-- that begins at it, as if its records were not there, unless the checksum of its first three records is the one
-- stored, which is that of all four.
pub step-long_name :
    (mode hash last index : ℕ) (p s n o : Record) (rest : List Record)
    → mode ≢ 0
    → IsPrimary mode p
    → byte_at p 1 ≡ 3
    → IsStream mode hash s
    → IsName n
    → IsName o
    → checksum (p ∷ s ∷ n ∷ []) ≢ word_at p 2
    → step mode hash last index [] (p ∷ s ∷ n ∷ o ∷ rest) ≡ step mode hash last (index + 4) [] rest
unfolding step
step-long_name mode hash last index p s n o rest m hp three hs hn ho ne =
    let t = step-three mode hash last index p s n (o ∷ rest) m hp (omega arith) hs hn in
    let e : (checksum (p ∷ s ∷ n ∷ []) == word_at p 2) ≡ false = ground arith in
    let d = name_record mode hash [] o m ho in
    let i : index + 3 + 1 ≡ index + 4 = omega arith in t ∙ rw (e, d.1, d.0, i) refl

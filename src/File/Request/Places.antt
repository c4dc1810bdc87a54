-- ===== src/File/Request/Places.antt =====
-- Where the file of a command is.
use cofuos.Prelude.{
  ℕ, suc, ◌+◌, ◌<◌, ◌≡◌, refl, ◌≢◌, inl, inr, Bool, true, false, ◌==◌, not, ◌&&◌, ◌||◌,
  if◌then◌else◌, List, [], ◌∷◌, ◌++◌, arith, Bool-cases,
}
use cofuos.Prelude.Tickets.{count, remove, count-remove_self, count-remove_ne}
use cofuos.File.Request.{
  FileState, Pool, command_list, command_read, set_file, accepted, read, write, seek, task,
  take_head, take_request, Transfer, finish, result, Step, reading, writing, seeking, submitted,
  taking, finishing, perform, run,
}

-- A file with a command is in one of the three places, once; one without a command is in none.
abbrev pub IsPlaced : Pool → Type 0
IsPlaced p =
    (f : ℕ)
    → count f p.submitting + count f p.requests + count f p.working
      ≡ (if (p.file f).command == 0 then 0 else 1)

count-snoc : (f g : ℕ) (xs : List ℕ) → count f (xs ++ (g ∷ [])) ≡ count f (g ∷ xs)
count-snoc f g [] = refl
count-snoc f g (x ∷ xs) = ground (arith, count-snoc f g xs)

-- A file other than the one that goes stays, and that one goes once.
count_removed :
    (f g : ℕ) (xs : List ℕ)
    → 0 < count f xs
    → count g xs ≡ count g (remove f xs) + (if g == f then 1 else 0)
count_removed f g xs h = elim (Bool-cases (g == f)) [
  | inl e ↦ let s : g ≡ f = ground arith in rw e (rw s (omega (arith, count-remove_self f xs h)))
  | inr e ↦ let n : g ≢ f = ground arith in rw e (omega (arith, count-remove_ne f g xs n))
]

accepted-IsPlaced :
    (f command len : ℕ) (p : Pool)
    → command ≢ 0
    → (p.file f).command ≡ 0
    → IsPlaced p
    → IsPlaced (accepted f command len p)
accepted-IsPlaced f command len p n z h g = elim (Bool-cases (g == f)) [
  | inl e ↦ let s : g ≡ f = ground arith in rw s (ground (arith, h f))
  | inr e ↦ ground (arith, h g)
]

kept-IsPlaced :
    (f : ℕ) (x : FileState) (p : Pool)
    → x.command ≡ (p.file f).command
    → IsPlaced p
    → IsPlaced (set_file f x p)
kept-IsPlaced f x p e h g = elim (Bool-cases (g == f)) [
  | inl t ↦ let s : g ≡ f = ground arith in rw t (rw (s, e) (h f))
  | inr t ↦ rw t (h g)
]

read_command : (b : Bool) → (if b then command_list else command_read) ≢ 0
read_command true e = omega arith
read_command false e = omega arith

read-IsPlaced : (f len : ℕ) (p : Pool) → IsPlaced p → IsPlaced (read f len p)
unfolding read
read-IsPlaced f len p h = elim (Bool-cases ((p.file f).command == 0)) [
  | inr e ↦ rw e (kept-IsPlaced f _ p refl h)
  | inl e ↦ rw e (accepted-IsPlaced f _ len p (read_command (p.file f).folder) (ground arith) h)
]

write-IsPlaced : (f len : ℕ) (p : Pool) → IsPlaced p → IsPlaced (write f len p)
unfolding write
write-IsPlaced f len p h = elim (Bool-cases (not ((p.file f).command == 0) || (p.file f).folder)) [
  | inl e ↦ rw e (kept-IsPlaced f _ p refl h)
  | inr e ↦ rw e (accepted-IsPlaced f 2 len p (λ z. omega arith) (ground arith) h)
]

seek-IsPlaced : (f off : ℕ) (p : Pool) → IsPlaced p → IsPlaced (seek f off p).1
unfolding seek
seek-IsPlaced f off p h = elim (Bool-cases ((p.file f).command == 0)) [
  | inl e ↦ rw e (kept-IsPlaced f _ p refl h)
  | inr e ↦ rw e h
]

task-IsPlaced : (f : ℕ) (p : Pool) → IsPlaced p → IsPlaced (task f p)
unfolding task
task-IsPlaced f p h = elim (Bool-cases (count f p.submitting == 0)) [
  | inl e ↦ rw e h
  | inr e ↦ elim (Bool-cases (p.running && (not ((p.file f).command == 2) || p.writable))) [
    | inl t ↦
        rw (e, t)
          (λ g.
            let c = count_removed f g p.submitting (ground arith) in
            let s = count-snoc g f p.requests in let hg = h g in ground arith)
    | inr t ↦
        rw (e, t)
          (λ g.
            let hf = h f in
            let hg = h g in
            let c = count_removed f g p.submitting (ground arith) in
            elim (Bool-cases (g == f)) [
              | inl d ↦
                  let s : g ≡ f = ground arith in
                  let one = count-remove_self f p.submitting (ground arith) in rw s (ground arith)
              | inr d ↦ ground arith
            ])
  ]
]

take_head-IsPlaced :
    (fs : List ℕ) (p : Pool) → p.requests ≡ fs → IsPlaced p → IsPlaced (take_head fs p)
take_head-IsPlaced [] p e h = h
take_head-IsPlaced (f ∷ fs) p e h =
    λ g. let c : count g p.requests ≡ count g (f ∷ fs) = rw e refl in let hg = h g in ground arith

take_request-IsPlaced : (p : Pool) → IsPlaced p → IsPlaced (take_request p)
unfolding take_request
take_request-IsPlaced p h = take_head-IsPlaced p.requests p refl h

finish-IsPlaced : (f : ℕ) (t : Transfer) (p : Pool) → IsPlaced p → IsPlaced (finish f t p)
unfolding finish
finish-IsPlaced f t p h = elim (Bool-cases (count f p.working == 0)) [
  | inl e ↦ rw e h
  | inr e ↦ rw e (λ g.
      let hf = h f in
      let hg = h g in
      let c = count_removed f g p.working (ground arith) in
      elim (Bool-cases (g == f)) [
        | inl d ↦
            let s : g ≡ f = ground arith in
            let one = count-remove_self f p.working (ground arith) in rw s (ground arith)
        | inr d ↦ ground arith
      ])
]

perform-IsPlaced : (s : Step) (p : Pool) → IsPlaced p → IsPlaced (perform s p)
perform-IsPlaced (reading f len) p h = read-IsPlaced f len p h
perform-IsPlaced (writing f len) p h = write-IsPlaced f len p h
perform-IsPlaced (seeking f off) p h = seek-IsPlaced f off p h
perform-IsPlaced (submitted f) p h = task-IsPlaced f p h
perform-IsPlaced taking p h = take_request-IsPlaced p h
perform-IsPlaced (finishing f t) p h = finish-IsPlaced f t p h

-- After any steps of callers and workers, in any order, from a state in which it is so: a file with a command is
-- with one caller that is about to submit it, or once in the list of the pool, or with one worker; a file without a
-- command is in none of these places.
pub run-IsPlaced : (ss : List Step) (p : Pool) → IsPlaced p → IsPlaced (run ss p)
unfolding run
run-IsPlaced [] p h = h
run-IsPlaced (s ∷ ss) p h = run-IsPlaced ss (perform s p) (perform-IsPlaced s p h)

-- A file without a command that is read, submitted to a running file system that has no other request, taken by a
-- worker and finished: the result is what the worker has transferred, and the request has failed exactly when the
-- worker failed or the file is a folder, so that a listing always fails.
pub request_round :
    (f len : ℕ) (t : Transfer) (p : Pool)
    → (p.file f).command ≡ 0
    → p.running ≡ true
    → p.requests ≡ []
    → let q = run (reading f len ∷ submitted f ∷ taking ∷ finishing f t ∷ []) p in
      (result f q ≡ t.bytes) × ((q.file f).failed ≡ ((p.file f).folder || t.error))
unfolding run read task take_request finish result
request_round f len t p z r e =
    let idle : ((p.file f).command == 0) ≡ true = ground arith in
    let self : (f == f) ≡ true = ground arith in
    let one : (suc (count f p.submitting) == 0) ≡ false = ground arith in
    let two : (suc (count f p.working) == 0) ≡ false = ground arith in
    elim (Bool-cases (p.file f).folder) [
      | inl d ↦ rw (idle, d, self, r, e, one, self, two, self) (refl, refl)
      | inr d ↦ rw (idle, d, self, r, e, one, self, two, self) (refl, refl)
    ]

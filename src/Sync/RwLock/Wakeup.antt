-- ===== src/Sync/RwLock/Wakeup.antt =====
-- No lost wakeup: nobody sleeps on a lock that it could take.
use cofuos.Prelude.{
  ℕ, ◌+◌, ◌-◌, ◌<◌, ◌^◌, ◌≡◌, refl, ap, ◌≢◌, true, false, Option, none, some, List, [], ◌∷◌, ◌++◌,
  ◌==◌, Bool, not, ◌&&◌, ◌||◌, arith, All, Bool-cases, inl, inr,
}
use mathlib.Core.Path.{subst}
use cofuos.Sync.RwLock.{
  RwLock, Mode, exclusive, shared, Waiter, returned, asleep, Release, woke, bugcheck, is_null,
  free_for, take_as, try_lock, lock, downgrade, unlock, unlock_owner,
}
use cofuos.Sync.RwLock.Exclusion.{
  System, Step, try, try_fail, enter, sleep, share, leave_exclusive, leave_shared, Reach, start,
  next, IsValid, rwlock-IsValid,
}

-- No waiter could take the lock as it is.
abbrev pub Blocked : RwLock → List Waiter → Type 0
Blocked l ws = All (λ (w : Waiter). free_for w.mode l ≡ false) ws

Blocked-mono :
    (l k : RwLock) (ws : List Waiter)
    → ((m : Mode) → free_for m l ≡ false → free_for m k ≡ false)
    → Blocked l ws
    → Blocked k ws
Blocked-mono l k [] h b = tt
Blocked-mono l k (w ∷ ws) h b = (h w.mode b.0, Blocked-mono l k ws h b.1)

Blocked-snoc :
    (l : RwLock) (ws : List Waiter) (w : Waiter)
    → free_for w.mode l ≡ false
    → Blocked l ws
    → Blocked l (ws ++ w ∷ [])
Blocked-snoc l [] w h b = (h, tt)
Blocked-snoc l (x ∷ ws) w h b = (b.0, Blocked-snoc l ws w h b.1)

free_for-take_as :
    (n m : Mode) (th : ℕ) (l : RwLock)
    → l.share_count + 1 < 2 ^ 32
    → free_for n l ≡ true
    → free_for m l ≡ false
    → free_for m (take_as n th l) ≡ false
free_for-take_as exclusive exclusive th l room f b = ground arith
free_for-take_as exclusive shared th l room f b = ground arith
free_for-take_as shared exclusive th l room f b = ground arith
free_for-take_as shared shared th l room f b = ground arith

take_as-Blocked :
    (n : Mode) (th : ℕ) (l : RwLock)
    → l.share_count + 1 < 2 ^ 32
    → free_for n l ≡ true
    → Blocked l l.wait_queue
    → Blocked (take_as n th l) (take_as n th l).wait_queue
take_as-Blocked exclusive th l room f b =
    Blocked-mono l _ l.wait_queue (λ m. free_for-take_as exclusive m th l room f) b
take_as-Blocked shared th l room f b =
    Blocked-mono l _ l.wait_queue (λ m. free_for-take_as shared m th l room f) b

try_lock-Blocked :
    (n : Mode) (th : ℕ) (l : RwLock)
    → ((try_lock n th l).0 ≡ true → l.share_count + 1 < 2 ^ 32)
    → Blocked l l.wait_queue
    → Blocked (try_lock n th l).1 (try_lock n th l).1.wait_queue
unfolding try_lock
try_lock-Blocked n th l room b = elim (Bool-cases (free_for n l)) [
  | inl f ↦ rw f (take_as-Blocked n th l (room (rw f)) f b)
  | inr f ↦ rw f b
]

Blocked-queue :
    (l : RwLock) (q ws : List Waiter) → Blocked l ws → Blocked (record l { wait_queue = q }) ws
Blocked-queue l q ws b =
    Blocked-mono l (record l { wait_queue = q }) ws (elim [ exclusive ↦ λ h. h | shared ↦ λ h. h ])
      b

lock-Blocked :
    (n : Mode) (th : ℕ) (l : RwLock)
    → ((lock n th l).0 ≡ returned → l.share_count + 1 < 2 ^ 32)
    → Blocked l l.wait_queue
    → Blocked (lock n th l).1 (lock n th l).1.wait_queue
unfolding lock
lock-Blocked n th l room b = elim (Bool-cases (free_for n l)) [
  | inl f ↦ rw f (take_as-Blocked n th l (room (rw f)) f b)
  | inr f ↦
      rw f
        (Blocked-queue l _ _ (Blocked-snoc l l.wait_queue (record { thread = th; mode = n }) f b))
]

-- A share is given back while others stay: who was blocked by the shares still is.
less_shares :
    (l : RwLock) (m : Mode)
    → l.owner ≡ none
    → l.share_count - 1 ≢ 0
    → free_for m l ≡ false
    → free_for m (record l { share_count = l.share_count - 1 }) ≡ false
less_shares l exclusive o k b = ground arith
less_shares l shared o k b = ground arith

unlock_owner-Blocked :
    (o : Option ℕ) (self : ℕ) (l : RwLock)
    → l.owner ≡ o
    → Blocked l l.wait_queue
    → Blocked (unlock_owner o self l).1 (unlock_owner o self l).1.wait_queue
unfolding unlock_owner
unlock_owner-Blocked (some th) self l e b =
    elim (Bool-cases ((l.share_count == 0) && (th == self))) [ inl f ↦ rw f tt | inr f ↦ rw f b ]
unlock_owner-Blocked none self l e b = elim (Bool-cases (l.share_count == 0)) [
  | inl f ↦ rw f b
  | inr f ↦ elim (Bool-cases (l.share_count - 1 == 0)) [
    | inl g ↦ rw (f, g) tt
    | inr g ↦ rw (f, g) (Blocked-mono l _ l.wait_queue (λ m. less_shares l m e (ground arith)) b)
  ]
]

follow {ℓ} :
    {A : Type ℓ} (r : A × RwLock) (a : A) (l : RwLock)
    → r ≡ (a, l)
    → Blocked r.1 r.1.wait_queue
    → Blocked l l.wait_queue
follow r a l e b = subst (λ k. Blocked k k.wait_queue) (ap (λ p. p.1) e) b

downgrade-Blocked :
    (l : RwLock) → Blocked l l.wait_queue → Blocked (downgrade l).1 (downgrade l).1.wait_queue
unfolding downgrade
downgrade-Blocked l b = elim (Bool-cases (is_null l.owner || not (l.share_count == 0))) [
  | inl f ↦ rw f b
  | inr f ↦ rw f tt
]

Step-Blocked :
    {s t : System}
    → Step s t
    → IsValid s
    → Blocked s.rw s.rw.wait_queue
    → Blocked t.rw t.rw.wait_queue
unfolding downgrade unlock
Step-Blocked (try s exclusive th l room e) v b =
    follow _ true l e (try_lock-Blocked exclusive th s.rw (λ _. ground arith) b)
Step-Blocked (try s shared th l room e) v b =
    follow _ true l e (try_lock-Blocked shared th s.rw (λ _. ground arith) b)
Step-Blocked (try_fail s m th l e) v b =
    follow _ false l e (try_lock-Blocked m th s.rw (λ h. ground arith) b)
Step-Blocked (enter s exclusive th l room e) v b =
    follow _ returned l e (lock-Blocked exclusive th s.rw (λ _. ground arith) b)
Step-Blocked (enter s shared th l room e) v b =
    follow _ returned l e (lock-Blocked shared th s.rw (λ _. ground arith) b)
Step-Blocked (sleep s m th l e) v b =
    follow _ asleep l e (lock-Blocked m th s.rw (λ h. ground arith) b)
Step-Blocked (share s th ws l w e) v b = follow _ (woke ws) l e (downgrade-Blocked s.rw b)
Step-Blocked (leave_exclusive s th ws l w e) v b =
    follow _ (woke ws) l e (unlock_owner-Blocked s.rw.owner th s.rw refl b)
Step-Blocked (leave_shared s th ws l w e) v b =
    follow _ (woke ws) l e (unlock_owner-Blocked s.rw.owner th s.rw refl b)

Reach-Blocked : {s : System} → Reach s → Blocked s.rw s.rw.wait_queue
Reach-Blocked start = tt
Reach-Blocked (next r st) = Step-Blocked st (rwlock-IsValid r) (Reach-Blocked r)

-- Who may call `unlock`: the owner, with no share held, or with no owner anybody while shares are held.
abbrev may_leave : Option ℕ → ℕ → ℕ → Bool
may_leave none self n = not (n == 0)
may_leave (some th) self n = (n == 0) && (th == self)

abbrev pub may_unlock : ℕ → RwLock → Bool
may_unlock self l = may_leave l.owner self l.share_count

-- `downgrade` is for the exclusive lock.
abbrev pub may_downgrade : RwLock → Bool
may_downgrade l = not (is_null l.owner || not (l.share_count == 0))

-- The lock `k` after a release of `l`: the waiters woken and those still asleep are together those that
-- waited, in their order, and nobody is left asleep whom the release lets in. A bugcheck is for a call
-- that was not allowed, and changes nothing.
abbrev pub IsRelease : Bool → RwLock → Release → RwLock → Type 0
IsRelease ok l (woke ws) k =
    (ok ≡ true) × (ws ++ k.wait_queue ≡ l.wait_queue) × Blocked k k.wait_queue
IsRelease ok l bugcheck k = (ok ≡ false) × (k ≡ l)

++-none : (ws : List Waiter) → ws ++ [] ≡ ws
++-none [] = refl
++-none (w ∷ ws) = ap (λ v. w ∷ v) (++-none ws)

unlock_owner-IsRelease :
    (o : Option ℕ) (self : ℕ) (l : RwLock)
    → l.owner ≡ o
    → Blocked l l.wait_queue
    → IsRelease
        (may_leave o self l.share_count)
        l
        (unlock_owner o self l).0
        (unlock_owner o self l).1
unfolding unlock_owner
unlock_owner-IsRelease (some th) self l e b =
    elim (Bool-cases ((l.share_count == 0) && (th == self))) [
      | inl f ↦ rw f (refl, ++-none l.wait_queue, tt)
      | inr f ↦ rw f (refl, refl)
    ]
unlock_owner-IsRelease none self l e b = elim (Bool-cases (l.share_count == 0)) [
  | inl f ↦ rw f (refl, refl)
  | inr f ↦ elim (Bool-cases (l.share_count - 1 == 0)) [
    | inl g ↦ rw (f, g) (refl, ++-none l.wait_queue, tt)
    | inr g ↦
        rw (f, g)
          (refl, refl, Blocked-mono l _ l.wait_queue (λ m. less_shares l m e (ground arith)) b)
  ]
]

downgrade-IsRelease : (l : RwLock) → IsRelease (may_downgrade l) l (downgrade l).0 (downgrade l).1
unfolding downgrade
downgrade-IsRelease l = elim (Bool-cases (is_null l.owner || not (l.share_count == 0))) [
  | inl f ↦ rw f (refl, refl)
  | inr f ↦ rw f (refl, ++-none l.wait_queue, tt)
]

-- In every reachable state nobody sleeps on a lock that it could take. There, `unlock` by the owner,
-- or of a share, and `downgrade` of a lock with an owner split the waiters into those that are woken and
-- those left asleep, in their order, so none is lost, and those left asleep could not take the lock as
-- it is then; `unlock` and `downgrade` in any other case are a bugcheck that changes nothing.
pub rwlock-Blocked :
    {s : System} (self : ℕ)
    → Reach s
    → Blocked s.rw s.rw.wait_queue
      × IsRelease (may_unlock self s.rw) s.rw (unlock self s.rw).0 (unlock self s.rw).1
      × IsRelease (may_downgrade s.rw) s.rw (downgrade s.rw).0 (downgrade s.rw).1
unfolding unlock downgrade
rwlock-Blocked {s} self r =
    let b = Reach-Blocked r in
    (b, unlock_owner-IsRelease s.rw.owner self s.rw refl b, downgrade-IsRelease s.rw)

-- ===== src/Lock/Mutex/Invariant.antt =====
-- What the threads of mutex.rs keep: who has the lock, and which keys of the slab are whose.
use futures_rs.Prelude.{
  ℕ, ◌≡◌, ap, sym, ◌∙◌, inl, inr, Option, none, some, Bool, true, false, not, ◌==◌, update, is_some,
  arith, Bool-cases,
}
use futures_rs.Lock.Mutex.{
  waiting, Slab, Laws, Mutex, Pc, idle, panicked, locking, poll_lock, poll_register, poll_again,
  poll_remove, guarded, move, try_begin, dropping,
}
use futures_rs.Lock.Mutex.Keys.{
  present-insert, present-wake_first, len-wake_first, len_pos, registered_lem, removed_lem,
}

-- The thread has the lock.
abbrev pub owner : Pc → Bool
owner (poll_remove key) = true
owner guarded = true
owner _ = false

abbrev pub key_of : Pc → Option ℕ
key_of (locking key) = key
key_of (dropping key) = key
key_of (poll_lock key w) = key
key_of (poll_register key w) = key
key_of (poll_again k) = some k
key_of (poll_remove key) = key
key_of _ = none

abbrev pub is_panicked : Pc → Bool
is_panicked panicked = true
is_panicked _ = false

module _ {S : Type 0} (sl : Slab S) where
  pub record Inv (c : Mutex S) (pc : ℕ → Pc) : Type 0 where
    pub counted : c.has_waiters ≡ not (sl.len c.waiters == 0)
    pub locked : (i : ℕ) → owner (pc i) ≡ true → c.is_locked ≡ true
    pub unique : (i j : ℕ) → owner (pc i) ≡ true → owner (pc j) ≡ true → i ≡ j
    pub held : c.is_locked ≡ true → (i : ℕ) × (owner (pc i) ≡ true)
    pub keyed : (i k : ℕ) → key_of (pc i) ≡ some k → is_some (sl.get c.waiters k) ≡ true
    pub apart : (i j k : ℕ) → key_of (pc i) ≡ some k → key_of (pc j) ≡ some k → i ≡ j
    pub owned : (k : ℕ) → is_some (sl.get c.waiters k) ≡ true → (i : ℕ) × (key_of (pc i) ≡ some k)
    pub calm : (i : ℕ) → is_panicked (pc i) ≡ false

module _ {S : Type 0} {sl : Slab S} (laws : Laws sl) {c : Mutex S} {pc : ℕ → Pc} (inv : Inv sl c pc)
    (i : ℕ) where
  open inv use {counted, locked, unique, held, keyed, apart, owned, calm}

  abbrev after : Pc → ℕ → Pc
  after p = update pc i (move sl c p).next

  move-locked :
      (p : Pc)
      → pc i ≡ p
      → (j : ℕ) → owner (after p j) ≡ true
      → (move sl c p).mutex.is_locked ≡ true
  unfolding move
  move-locked idle e j h = ground (arith, locked j)
  move-locked p e j h = ground (arith, locked j, locked i, unique i j)

  move_unique :
      (p : Pc) → pc i ≡ p → (a b : ℕ) → owner (after p a) ≡ true → owner (after p b) ≡ true → a ≡ b
  unfolding move
  move_unique idle e a b ha hb = ground (arith, unique a b)
  move_unique p e a b ha hb = ground (arith, unique a b, unique i a, unique i b, locked a, locked b)

  move-held :
      (p : Pc)
      → pc i ≡ p
      → (move sl c p).mutex.is_locked ≡ true
      → (j : ℕ) × (owner (after p j) ≡ true)
  unfolding move
  move-held (poll_lock key w) e h = elim (Bool-cases c.is_locked) [
    | inl t ↦ let (j, o) = held t in (j, ground arith)
    | inr f ↦ (i, ground arith)
  ]
  move-held (poll_again k) e h = elim (Bool-cases c.is_locked) [
    | inl t ↦ let (j, o) = held t in (j, ground arith)
    | inr f ↦ (i, ground arith)
  ]
  move-held try_begin e h = elim (Bool-cases c.is_locked) [
    | inl t ↦ let (j, o) = held t in (j, ground arith)
    | inr f ↦ (i, ground arith)
  ]
  move-held (poll_remove none) e h = (i, ground arith)
  move-held (poll_remove (some k)) e h =
      let (s', r, m, w) = removed_lem sl laws c.waiters k false (keyed i k (ap key_of e)) in
      (i, ground arith)
  move-held (dropping (some k)) e h =
      let (s', r, m, w) = removed_lem sl laws c.waiters k true (keyed i k (ap key_of e)) in
      let (j, o) = held (ground arith) in (j, ground arith)
  move-held guarded e h = absurd (ground arith)
  move-held p e h = let (j, o) = held (ground arith) in (j, ground arith)

  move-calm : (p : Pc) → pc i ≡ p → (j : ℕ) → is_panicked (after p j) ≡ false
  unfolding move
  move-calm idle e j = ground (arith, calm j)
  move-calm (poll_register (some k) w) e j =
      let (s', r, m) = registered_lem sl laws c.waiters k w (keyed i k (ap key_of e)) in
      ground (arith, calm j)
  move-calm (poll_remove (some k)) e j =
      let (s', r, m, w) = removed_lem sl laws c.waiters k false (keyed i k (ap key_of e)) in
      ground (arith, calm j)
  move-calm (dropping (some k)) e j =
      let (s', r, m, w) = removed_lem sl laws c.waiters k true (keyed i k (ap key_of e)) in
      ground (arith, calm j)
  move-calm p e j = ground (arith, calm j, calm i)

  move-counted :
      (p : Pc)
      → pc i ≡ p
      → (move sl c p).mutex.has_waiters ≡ not (sl.len (move sl c p).mutex.waiters == 0)
  unfolding move
  move-counted idle e = counted
  move-counted (poll_register none w) e =
      ground (arith, counted, laws.len-insert c.waiters (waiting w))
  move-counted (poll_register (some k) w) e =
      let (s', r, m) = registered_lem sl laws c.waiters k w (keyed i k (ap key_of e)) in
      ground (arith, counted, m.length)
  move-counted (poll_remove (some k)) e =
      let (s', r, m, w) = removed_lem sl laws c.waiters k false (keyed i k (ap key_of e)) in
      ground (arith, counted, len_pos sl laws c.waiters k, keyed i k)
  move-counted (dropping (some k)) e =
      let (s', r, m, w) = removed_lem sl laws c.waiters k true (keyed i k (ap key_of e)) in
      ground (arith, counted, len_pos sl laws c.waiters k, keyed i k)
  move-counted p e = ground (arith, counted, len-wake_first sl laws c.waiters)

  move-keyed :
      (p : Pc)
      → pc i ≡ p
      → (j k : ℕ) → key_of (after p j) ≡ some k
      → is_some (sl.get (move sl c p).mutex.waiters k) ≡ true
  unfolding move
  move-keyed idle e j k h = ground (arith, keyed j k)
  move-keyed (poll_register none w) e j k h =
      ground (arith, keyed j k, present-insert sl laws c.waiters (waiting w) k)
  move-keyed (poll_register (some n) w) e j k h =
      let (s', r, m) = registered_lem sl laws c.waiters n w (keyed i n (ap key_of e)) in
      ground (arith, keyed j k, keyed i k, m.same k)
  move-keyed (poll_remove (some n)) e j k h =
      let (s', r, m, w) = removed_lem sl laws c.waiters n false (keyed i n (ap key_of e)) in
      ground (arith, keyed j k, apart i j n, m.same k)
  move-keyed (dropping (some n)) e j k h =
      let (s', r, m, w) = removed_lem sl laws c.waiters n true (keyed i n (ap key_of e)) in
      ground (arith, keyed j k, apart i j n, m.same k)
  move-keyed p e j k h =
      ground (arith, keyed j k, keyed i k, present-wake_first sl laws c.waiters k)

  move-apart :
      (p : Pc)
      → pc i ≡ p
      → (a b k : ℕ) → key_of (after p a) ≡ some k
      → key_of (after p b) ≡ some k
      → a ≡ b
  unfolding move
  move-apart idle e a b k ha hb = ground (arith, apart a b k)
  move-apart (poll_register none w) e a b k ha hb =
      ground (arith, apart a b k, keyed a k, keyed b k, laws.vacant c.waiters (waiting w))
  move-apart (poll_register (some n) w) e a b k ha hb =
      let (s', r, m) = registered_lem sl laws c.waiters n w (keyed i n (ap key_of e)) in
      ground (arith, apart a b k, apart i a k, apart i b k)
  move-apart (poll_remove (some n)) e a b k ha hb =
      let (s', r, m, w) = removed_lem sl laws c.waiters n false (keyed i n (ap key_of e)) in
      ground (arith, apart a b k)
  move-apart (dropping (some n)) e a b k ha hb =
      let (s', r, m, w) = removed_lem sl laws c.waiters n true (keyed i n (ap key_of e)) in
      ground (arith, apart a b k)
  move-apart p e a b k ha hb = ground (arith, apart a b k, apart i a k, apart i b k)

  move-owned :
      (p : Pc)
      → pc i ≡ p
      → (k : ℕ) → is_some (sl.get (move sl c p).mutex.waiters k) ≡ true
      → (j : ℕ) × (key_of (after p j) ≡ some k)
  unfolding move
  move-owned (poll_register none w) e k h =
      elim (Bool-cases ((sl.insert c.waiters (waiting w)).0 == k)) [
        | inl t ↦ (i, ground arith)
        | inr f ↦
            let (j, o) = owned k (ground (arith, present-insert sl laws c.waiters (waiting w) k)) in
            (j, ground arith)
      ]
  move-owned (poll_register (some n) w) e k h =
      let (s', r, m) = registered_lem sl laws c.waiters n w (keyed i n (ap key_of e)) in
      let (j, o) = owned k (ground (arith, m.same k)) in (j, ground arith)
  move-owned (poll_remove (some n)) e k h =
      let (s', r, m, w) = removed_lem sl laws c.waiters n false (keyed i n (ap key_of e)) in
      let (j, o) = owned k (ground (arith, m.same k)) in (j, ground (arith, m.same k))
  move-owned (dropping (some n)) e k h =
      let (s', r, m, w) = removed_lem sl laws c.waiters n true (keyed i n (ap key_of e)) in
      let (j, o) = owned k (ground (arith, m.same k)) in (j, ground (arith, m.same k))
  move-owned p e k h =
      let (j, o) = owned k (ground (arith, present-wake_first sl laws c.waiters k)) in
      (j, ground arith)

  -- A step of thread `i` keeps the invariant.
  pub move-Inv : (p : Pc) → pc i ≡ p → Inv sl (move sl c p).mutex (after p)
  move-Inv p e = record {
    counted = move-counted p e;
    locked = move-locked p e;
    unique = move_unique p e;
    held = move-held p e;
    keyed = move-keyed p e;
    apart = move-apart p e;
    owned = move-owned p e;
    calm = move-calm p e;
  }

  -- So does a thread that goes elsewhere by itself.
  pub goes-Inv :
      (q : Pc)
      → owner q ≡ owner (pc i)
      → key_of q ≡ key_of (pc i)
      → is_panicked q ≡ false
      → Inv sl c (update pc i q)
  goes-Inv q o k n = record {
    counted = counted;
    locked = λ j h. locked j (goes-owner j ∙ h);
    unique = λ a b ha hb. unique a b (goes-owner a ∙ ha) (goes-owner b ∙ hb);
    held = λ h. let (j, g) = held h in (j, sym (goes-owner j) ∙ g);
    keyed = λ j m h. keyed j m (goes-key j ∙ h);
    apart = λ a b m ha hb. apart a b m (goes-key a ∙ ha) (goes-key b ∙ hb);
    owned = λ m h. let (j, g) = owned m h in (j, sym (goes-key j) ∙ g);
    calm = λ j. ground (arith, calm j);
  }
    where
      goes-owner : (j : ℕ) → owner (pc j) ≡ owner (update pc i q j)
      goes-owner j = ground arith

      goes-key : (j : ℕ) → key_of (pc j) ≡ key_of (update pc i q j)
      goes-key j = ground arith

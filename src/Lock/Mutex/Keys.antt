-- ===== src/Lock/Mutex/Keys.antt =====
-- What the operations of the slab do to the keys that it has (mutex.rs).
use futures_rs.Prelude.{
  ℕ, ◌≡◌, ◌≢◌, refl, sym, ◌∙◌, Option, none, some, Bool, true, false, ◌==◌, if◌then◌else◌, is_some,
  arith, ◌&&◌,
}
use futures_rs.Lock.Mutex.{
  Waiter, waiting, woken, Slab, Laws, wake_first, removed, registered, register, is_woken,
}

module _ {S : Type 0} (sl : Slab S) (laws : Laws sl) where
  open laws use {
    get-put, len-put, get-insert, vacant, len-insert, get-remove, len_zero, first_none, first_some,
  }

  abbrev pub present : S → ℕ → Bool
  present s k = is_some (sl.get s k)

  pub present-put :
      (s : S) (k : ℕ) (a : Waiter) (j : ℕ)
      → present s k ≡ true
      → present (sl.put s k a) j ≡ present s j
  present-put s k a j h = ground (arith, get-put s k a j)

  pub present-insert :
      (s : S) (a : Waiter) (j : ℕ)
      → present (sl.insert s a).1 j ≡ (if (sl.insert s a).0 == j then true else present s j)
  present-insert s a j = ground (arith, get-insert s a j)

  pub present-remove :
      (s : S) (k j : ℕ) → present (sl.remove s k) j ≡ (if k == j then false else present s j)
  present-remove s k j = ground (arith, get-remove s k j)

  pub len_pos : (s : S) (k : ℕ) → present s k ≡ true → sl.len s ≢ 0
  len_pos s k h z = ground (arith, len_zero s k)

  module _ (s : S) where
    pub present-wake_first : (k : ℕ) → present (wake_first sl s) k ≡ present s k
    unfolding wake_first
    present-wake_first k = go (sl.first s) refl
      where
        go :
            (o : Option ℕ)
            → sl.first s ≡ o
            → present (elim o [ some f ↦ sl.put s f woken | none ↦ s ]) k ≡ present s k
        go none e = refl
        go (some f) e = present-put s f woken k (first_some s f e)

    pub len-wake_first : sl.len (wake_first sl s) ≡ sl.len s
    unfolding wake_first
    len-wake_first = go (sl.first s) refl
      where
        go :
            (o : Option ℕ)
            → sl.first s ≡ o
            → sl.len (elim o [ some f ↦ sl.put s f woken | none ↦ s ]) ≡ sl.len s
        go none e = refl
        go (some f) e = len-put s f woken (first_some s f e)

    -- A waiter that was woken stays so.
    pub wake_first_keeps :
        (k : ℕ) → sl.get s k ≡ some woken → sl.get (wake_first sl s) k ≡ some woken
    unfolding wake_first
    wake_first_keeps k h = go (sl.first s) refl
      where
        go :
            (o : Option ℕ)
            → sl.first s ≡ o
            → sl.get (elim o [ some f ↦ sl.put s f woken | none ↦ s ]) k ≡ some woken
        go none e = h
        go (some f) e = ground (arith, get-put s f woken k, first_some s f e)

    -- If there is a waiter, then one is woken.
    pub wake_first_wakes :
        (k : ℕ) → present s k ≡ true → (f : ℕ) × (sl.get (wake_first sl s) f ≡ some woken)
    unfolding wake_first
    wake_first_wakes k h = go (sl.first s) refl
      where
        go :
            (o : Option ℕ)
            → sl.first s ≡ o
            → (f : ℕ) × (sl.get (elim o [ some f ↦ sl.put s f woken | none ↦ s ]) f ≡ some woken)
        go none e = absurd (ground (arith, first_none s k e))
        go (some f) e = (f, ground (arith, get-put s f woken f, first_some s f e))

  -- A slab after the waker at a key was registered again.
  pub record Registered (s : S) (k : ℕ) (s' : S) : Type 0 where
    pub same : (j : ℕ) → present s' j ≡ present s j
    pub length : sl.len s' ≡ sl.len s

  -- A slab after a key was removed, and perhaps another waiter woken.
  pub record Removed (s : S) (k : ℕ) (s' : S) : Type 0 where
    pub same : (j : ℕ) → present s' j ≡ (if k == j then false else present s j)
    pub keeps : (j : ℕ) → (k == j) ≡ false → sl.get s j ≡ some woken → sl.get s' j ≡ some woken

  pub registered_lem :
      (s : S) (k w : ℕ)
      → present s k ≡ true
      → (s' : S) × (registered sl s k w ≡ some s') × Registered s k s'
  unfolding registered
  registered_lem s k w h = go (sl.get s k) refl
    where
      go :
          (o : Option Waiter)
          → sl.get s k ≡ o
          → (s' : S) × ((elim o [ none ↦ none | some a ↦ some (sl.put s k (register w a)) ])
              ≡ some s')
            × Registered s k s'
      go none e = absurd (ground arith)
      go (some a) e = (
        sl.put s k (register w a),
        refl,
        record {
          same = λ j. present-put s k (register w a) j h;
          length = len-put s k (register w a) h;
        },
      )

  remove-Removed : (s : S) (k : ℕ) → Removed s k (sl.remove s k)
  remove-Removed s k = record {
    same = present-remove s k;
    keeps = λ j n h. ground (arith, get-remove s k j);
  }

  wake-Removed : (s : S) (k : ℕ) → Removed s k (wake_first sl (sl.remove s k))
  wake-Removed s k = record {
    same = λ j. present-wake_first (sl.remove s k) j ∙ present-remove s k j;
    keeps = λ j n h. wake_first_keeps (sl.remove s k) j (ground (arith, get-remove s k j));
  }

  -- Another waiter is woken, if there is one, where the removed one was woken and this is asked for.
  pub removed_lem :
      (s : S) (k : ℕ) (wake : Bool)
      → present s k ≡ true
      → (s' : S) × (removed sl s k wake ≡ some s')
        × Removed s k s'
        × (wake ≡ true
            → sl.get s k ≡ some woken
            → (j : ℕ) → present s' j ≡ true
            → (f : ℕ) × (sl.get s' f ≡ some woken))
  unfolding removed
  removed_lem s k wake h = go (sl.get s k) wake refl
    where
      go :
          (o : Option Waiter) (b : Bool)
          → sl.get s k ≡ o
          → (s' : S) × ((elim o [
            | none ↦ none
            | some a ↦
                some (if is_woken a && b then wake_first sl (sl.remove s k) else sl.remove s k)
          ])
              ≡ some s')
            × Removed s k s'
            × (b ≡ true
                → sl.get s k ≡ some woken
                → (j : ℕ) → present s' j ≡ true
                → (f : ℕ) × (sl.get s' f ≡ some woken))
      go none b e = absurd (ground arith)
      go (some (waiting v)) b e =
          (sl.remove s k, refl, remove-Removed s k, λ t g. absurd (ground arith))
      go (some woken) true e = (
        wake_first sl (sl.remove s k),
        refl,
        wake-Removed s k,
        λ t g j p.
            wake_first_wakes (sl.remove s k) j (sym (present-wake_first (sl.remove s k) j) ∙ p),
      )
      go (some woken) false e =
          (sl.remove s k, refl, remove-Removed s k, λ t. absurd (ground arith))

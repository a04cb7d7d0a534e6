-- ===== src/Mpsc/Word/Laws.antt =====
-- The laws of the word `state` in futures-channel/src/mpsc/mod.rs.
use futures_rs.Prelude.{
  ℕ, ◌+◌, ◌<◌, ◌≤◌, ◌≡◌, ◌≢◌, refl, ap, inl, inr, List, [], ◌∷◌, ◌++◌, true, false, ltb, ◌==◌,
  arith, Bool-cases,
}
use futures_rs.Usize.{usize_mod}
use futures_rs.Mpsc.Word.{
  State, decode_state, encode_state, max_capacity, inc_num_messages, retried, Incremented, panicked,
  not_open, stored, dec_num_messages, set_closed, attempt,
}

-- A word and its parts determine one another: decoding what was encoded gives the state back, if
-- its count fits in 63 bits, and encoding what was decoded gives the word back.
pub decode-encode :
    (s : State) (w : ℕ)
    → s.num_messages ≤ max_capacity
    → w < usize_mod
    → (decode_state (encode_state s) ≡ s) × (encode_state (decode_state w) ≡ w)
unfolding decode_state encode_state
decode-encode s w h k = (ground arith, ground arith)

-- One message fewer, if there is one: `fetch_sub` does not borrow from the open bit.
pub decode-dec :
    (w : ℕ)
    → w < usize_mod
    → 0 < (decode_state w).num_messages
    → ((decode_state (dec_num_messages w)).is_open ≡ (decode_state w).is_open)
      × ((decode_state (dec_num_messages w)).num_messages + 1 ≡ (decode_state w).num_messages)
      × (dec_num_messages w < usize_mod)
unfolding decode_state dec_num_messages
decode-dec w h p = ground arith

pub decode-set_closed :
    (w : ℕ)
    → w < usize_mod
    → ((decode_state (set_closed w)).is_open ≡ false)
      × ((decode_state (set_closed w)).num_messages ≡ (decode_state w).num_messages)
      × (set_closed w < usize_mod)
unfolding decode_state set_closed
decode-set_closed w h = ground arith

num-le : (w : ℕ) → (decode_state w).num_messages ≤ max_capacity
unfolding decode_state
num-le w = omega arith

-- What the loop says of the word `w` that it last read.
abbrev pub Counts : ℕ → Incremented → Type 0
Counts w panicked =
    ((decode_state w).is_open ≡ true) × ((decode_state w).num_messages ≡ max_capacity)
Counts w not_open = (decode_state w).is_open ≡ false
Counts w (stored n next) =
    ((decode_state w).is_open ≡ true)
    × (n ≡ (decode_state w).num_messages + 1)
    × (n ≤ max_capacity)
    × ((decode_state next).is_open ≡ true)
    × ((decode_state next).num_messages ≡ n)
    × (next < usize_mod)

encode-lt : (s : State) → s.num_messages ≤ max_capacity → encode_state s < usize_mod
unfolding encode_state
encode-lt s h = ground arith

pub attempt-Counts : (w : ℕ) → w < usize_mod → Counts w (attempt w)
unfolding attempt
attempt-Counts w h = elim (Bool-cases (decode_state w).is_open) [
  | inl o ↦ elim (Bool-cases (ltb (decode_state w).num_messages max_capacity)) [
    | inl l ↦
        let s : State = record {
          is_open = true;
          num_messages = (decode_state w).num_messages + 1;
        } in
        rw (o, l) (ground (arith, decode-encode s w (ground arith) h, encode-lt s (ground arith)))
    | inr f ↦ rw (o, f) (o, ground (arith, num-le w))
  ]
  | inr c ↦ rw c c
]

abbrev pub Words : List ℕ → Type 0
Words [] = Unit
Words (x ∷ xs) = (x < usize_mod) × Words xs

abbrev first : List ℕ → ℕ → ℕ
first [] w = w
first (x ∷ xs) w = x

-- The rounds before the one for `w`: each word has room, and was another one when the round ended.
abbrev pub Retried : List ℕ → ℕ → Type 0
Retried [] w = Unit
Retried (b ∷ bs) w =
    ((decode_state b).is_open ≡ true)
    × ((decode_state b).num_messages < max_capacity)
    × (b ≢ first bs w)
    × Retried bs w

-- Where a word is stored over `w`, `w` was still there.
abbrev pub Unchanged : ℕ → List ℕ → Incremented → Type 0
Unchanged w after panicked = Unit
Unchanged w after not_open = Unit
Unchanged w after (stored n next) = first after w ≡ w

-- The word `w` among the words read, and what is said of it and of those before it.
pub record Decides (words : List ℕ) (r : Incremented) : Type 0 where
  pub w : ℕ
  pub before : List ℕ
  pub after : List ℕ
  pub parts : words ≡ before ++ w ∷ after
  pub retried_before : Retried before w
  pub unchanged : Unchanged w after r
  pub counts : Counts w r

-- The loop answers by one of the words that it read: `Closed` if it is closed, a panic if its count
-- is at the limit, and else it stores that word with one message more, while it was still the word
-- there. In each round before, the word was open and had room, and the `compare_exchange` read
-- another word.
pub inc_num_messages-Decides :
    (seen : List ℕ) (curr : ℕ)
    → Words (curr ∷ seen)
    → Decides (curr ∷ seen) (inc_num_messages seen curr)
unfolding inc_num_messages
inc_num_messages-Decides [] curr h = record {
  w = curr;
  before = [];
  after = [];
  parts = refl;
  retried_before = tt;
  unchanged = alone (attempt curr);
  counts = attempt-Counts curr h.0;
}
  where
    alone : (r : Incremented) → Unchanged curr [] r
    alone panicked = tt
    alone not_open = tt
    alone (stored n next) = refl
inc_num_messages-Decides (x ∷ seen) curr h =
    choose (attempt curr) (attempt-Counts curr h.0) (inc_num_messages-Decides seen x h.1)
  where
    here :
        (r : Incremented)
        → Unchanged curr (x ∷ seen) r
        → Counts curr r
        → Decides (curr ∷ x ∷ seen) r
    here r u k = record {
      w = curr;
      before = [];
      after = x ∷ seen;
      parts = refl;
      retried_before = tt;
      unchanged = u;
      counts = k;
    }

    first_word : (bs : List ℕ) (v : ℕ) (rest : List ℕ) → x ∷ seen ≡ bs ++ v ∷ rest → first bs v ≡ x
    first_word [] v rest e = ground arith
    first_word (b ∷ bs) v rest e = ground arith

    choose :
        (r : Incremented)
        → Counts curr r
        → Decides (x ∷ seen) (inc_num_messages seen x)
        → Decides (curr ∷ x ∷ seen) (retried x curr r (inc_num_messages seen x))
    choose panicked k d = here panicked tt k
    choose not_open k d = here not_open tt k
    choose (stored n next) k d = elim (Bool-cases (x == curr)) [
      | inl won ↦ rw won (here (stored n next) (ground arith) k)
      | inr lost ↦ rw lost (record {
        w = d.w;
        before = curr ∷ d.before;
        after = d.after;
        parts = ap (◌∷◌ curr) d.parts;
        retried_before = (
          k.0,
          omega (arith, k),
          (λ e. ground (arith, first_word d.before d.w d.after d.parts)),
          d.retried_before,
        );
        unchanged = d.unchanged;
        counts = d.counts;
      })
    ]

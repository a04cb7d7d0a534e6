-- ===== src/FutureExt/Flatten.antt =====
-- futures-util/src/future/future/flatten.rs
use futures_rs.Prelude.{List, Option, none, some, Bool, true, false}
use futures_rs.Task.{Poll, ready, pending}
use futures_rs.Run.{Run, return, panic, ◌>>=◌, Turn, again, done, map-Gives}
use futures_rs.Stream.{
  Future, Stream, Resolves, resolve, wait, Yields, item, finish, looped, again-Yields, item-Yields,
  wait-Yields, finish-Yields, looped_future, again-Resolves, wait-Resolves, done-Resolves,
}

pub data Flatten {ℓ κ} (F : Type ℓ) (G : Type κ) : Type (ℓ ⊔ κ) where
  first : F → Flatten F G
  second : G → Flatten F G
  empty : Flatten F G

module _ {ℓ κ} {F : Type ℓ} {G : Type κ} where
  abbrev pub new : F → Flatten F G
  new f = first f

  abbrev pub is_terminated : Flatten F G → Bool
  is_terminated (first f) = false
  is_terminated (second g) = false
  is_terminated empty = true

  module _ {μ} {B : Type μ} (fu : Future F G) where
    -- The rest of a round when the first future has been polled.
    abbrev pub on_first : Poll G × F → Turn (Flatten F G) (Poll B)
    on_first (pending, f) = done pending (first f)
    on_first (ready g, f) = again (second g)

  module _ {μ} {B : Type μ} (fu : Future F G) (gu : Future G B) where
    -- The rest of a round when the second future has been polled.
    abbrev pub on_second : Poll B × G → Turn (Flatten F G) (Poll B)
    on_second (pending, g) = done pending (second g)
    on_second (ready b, g) = done (ready b) empty

    -- It panics when it is polled after completion.
    unfoldable pub round : Flatten F G → Run (Turn (Flatten F G) (Poll B))
    round (first f) = fu.poll f >>= λ r. return (on_first fu r)
    round (second g) = gu.poll g >>= λ r. return (on_second r)
    round empty = panic

    abbrev pub flatten_future : Future (Flatten F G) B
    flatten_future = looped_future round

    second-Resolves : {g : G} {b : B} → Resolves gu g b → Resolves flatten_future (second g) b
    unfolding round
    second-Resolves (resolve h) = done-Resolves round (map-Gives on_second h)
    second-Resolves (wait h r) = wait-Resolves round (map-Gives on_second h) (second-Resolves r)

    -- If a future comes to a future that comes to a value, then `flatten` comes to the value.
    pub flatten_resolves :
        (f : F) (g : G) (b : B)
        → Resolves fu f g
        → Resolves gu g b
        → Resolves flatten_future (new f) b
    unfolding round
    flatten_resolves f g b (resolve h) s =
        again-Resolves round (map-Gives (on_first fu) h) (second-Resolves s)
    flatten_resolves f g b (wait h r) s =
        wait-Resolves round (map-Gives (on_first fu) h) (flatten_resolves _ g b r s)

  module _ {μ} {B : Type μ} (fu : Future F G) (sg : Stream G B) where
    -- The rest of a round of `poll_next` when the second, a stream, has been polled.
    abbrev pub on_item : Poll (Option B) × G → Turn (Flatten F G) (Poll (Option B))
    on_item (pending, g) = done pending (second g)
    on_item (ready (some b), g) = done (ready (some b)) (second g)
    on_item (ready none, g) = done (ready none) empty

    unfoldable pub round_next : Flatten F G → Run (Turn (Flatten F G) (Poll (Option B)))
    round_next (first f) = fu.poll f >>= λ r. return (on_first fu r)
    round_next (second g) = sg.poll_next g >>= λ r. return (on_item r)
    round_next empty = return (done (ready none) empty)

    -- `size_hint` is the default of the trait.
    abbrev pub flatten_stream : Stream (Flatten F G) B
    flatten_stream = looped round_next (λ t. (0, none)) is_terminated

    second-Yields : {g : G} {bs : List B} → Yields sg g bs → Yields flatten_stream (second g) bs
    unfolding round_next
    second-Yields (finish h) = finish-Yields round_next (map-Gives on_item h)
    second-Yields (item h y) = item-Yields round_next (map-Gives on_item h) (second-Yields y)
    second-Yields (wait h y) = wait-Yields round_next (map-Gives on_item h) (second-Yields y)

    -- If a future comes to a stream that yields a list, then `flatten_stream` yields the list.
    pub flatten_yields :
        (f : F) (g : G) (bs : List B)
        → Resolves fu f g
        → Yields sg g bs
        → Yields flatten_stream (new f) bs
    unfolding round_next
    flatten_yields f g bs (resolve h) y =
        again-Yields round_next (map-Gives (on_first fu) h) (second-Yields y)
    flatten_yields f g bs (wait h r) y =
        wait-Yields round_next (map-Gives (on_first fu) h) (flatten_yields _ g bs r y)

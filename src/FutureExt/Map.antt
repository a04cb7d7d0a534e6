-- ===== src/FutureExt/Map.antt =====
-- futures-util/src/future/future/map.rs
use futures_rs.Prelude.{Bool, true, false}
use futures_rs.Task.{Poll, ready, pending}
use futures_rs.Run.{Run, return, panic, ◌>>=◌, map-Gives}
use futures_rs.Stream.{Future, Resolves, resolve, wait}

pub data Map {ℓ} (F : Type ℓ) : Type ℓ where
  incomplete : F → Map F
  complete : Map F

module _ {ℓ κ μ} {F : Type ℓ} {A : Type κ} {B : Type μ} (fu : Future F A) (f : A → B) where
  abbrev pub new : F → Map F
  new fut = incomplete fut

  abbrev pub is_terminated : Map F → Bool
  is_terminated (incomplete fut) = false
  is_terminated complete = true

  abbrev pub on_output : Poll A × F → Poll B × Map F
  on_output (pending, fut) = (pending, incomplete fut)
  on_output (ready a, fut) = (ready (f a), complete)

  unfoldable pub poll : Map F → Run (Poll B × Map F)
  poll (incomplete fut) = fu.poll fut >>= λ r. return (on_output r)
  poll complete = panic

  abbrev pub map_future : Future (Map F) B
  map_future = record { poll = poll }

  -- If a future comes to a value, then `map` of it comes to what the function makes of the value.
  pub map_resolves : (fut : F) (a : A) → Resolves fu fut a → Resolves map_future (new fut) (f a)
  unfolding poll
  map_resolves fut a (resolve h) = resolve (map-Gives on_output h)
  map_resolves fut a (wait h r) = wait (map-Gives on_output h) (map_resolves _ a r)

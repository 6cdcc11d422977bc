-- ===== src/Uniform/Channel.antt =====
-- The single-use channels of src/uniform.rs, with threads and without, and runs of them. A lock is
-- never poisoned: each operation is one step, and `ctake` on an empty channel waits.
pub mod Runs
mod Tests
use frayed_cascade.Base.{ℕ, ◌+◌, ◌≡◌, Bool, true, false, Option, none, some, List, [], ◌∷◌}

pub data ChannelResult {ℓ} (T : Type ℓ) : Type ℓ where
  empty : ChannelResult T
  full : T → ChannelResult T
  expired : ChannelResult T

pub record Channel {ℓ} (T : Type ℓ) : Type ℓ where
  pub current : ChannelResult T
  pub available : Bool

-- The channel of the build without threads.
pub record Cell {ℓ} (T : Type ℓ) : Type ℓ where
  pub current : Option T

-- What an operation did, with what it returned.
pub data Event {ℓ} (T : Type ℓ) : Type ℓ where
  wrote : T → Event T
  expiry : Event T
  reserved : Bool → Event T
  took : Option T → Event T

module _ {ℓ} {T : Type ℓ} where
  unfoldable pub new : Channel T
  new = record { current = empty; available = true }

  -- `replace(&mut *cur, Expired)`, and the value; `none` is to wait.
  unfoldable pub take_out : Channel T → ChannelResult T → Option (Option T × Channel T)
  take_out c empty = none
  take_out c expired = some (none, record c { current = expired })
  take_out c (full x) = some (some x, record c { current = expired })

  unfoldable pub ctake : Channel T → Option (Option T × Channel T)
  ctake c = take_out c c.current

  unfoldable pub write : Channel T → T → Channel T
  write c t = record c { current = full t }

  unfoldable pub expire : Channel T → Channel T
  expire c = record c { current = expired }

  unfoldable pub reserve : Channel T → Bool × Channel T
  reserve c = (c.available, record c { available = false })

  pub data Step (c : Channel T) : Event T → Channel T → Type ℓ where
    writing : (t : T) → Step c (wrote t) (write c t)
    expiring : Step c expiry (expire c)
    reserving : Step c (reserved (reserve c).0) (reserve c).1
    taking : (x : Option T) (d : Channel T) → ctake c ≡ some (x, d) → Step c (took x) d

  -- The events of a run, the latest first, and the state that it leads to.
  pub data Run (c : Channel T) : List (Event T) → Channel T → Type ℓ where
    start : Run c [] c
    after :
        {events : List (Event T)} {e : Event T} {d d' : Channel T}
        → Run c events d
        → Step d e d'
        → Run c (e ∷ events) d'

  pub cell_new : Cell T
  cell_new = record { current = none }

  pub cell_take : Cell T → Option T × Cell T
  cell_take c = (c.current, record { current = none })

  pub cell_write : Cell T → T → Cell T
  cell_write c t = record { current = some t }

  pub cell_expire : Cell T → Cell T
  cell_expire c = record { current = none }

  pub cell_reserve : Cell T → Bool
  cell_reserve c = true

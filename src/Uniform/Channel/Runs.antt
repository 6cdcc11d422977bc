-- ===== src/Uniform/Channel/Runs.antt =====
-- What holds in every run of a channel of src/uniform.rs, and how the two kinds of channel agree.
use frayed_cascade.Base.{
  ℕ, ◌+◌, ◌≤◌, ◌≡◌, refl, sym, ap, ap₂, ◌∙◌, Bool, true, false, ◌&&◌, Option, none, some, List, [],
  ◌∷◌, arith,
}
use frayed_cascade.Uniform.Channel.{
  ChannelResult, empty, full, expired, Channel, Cell, Event, wrote, expiry, reserved, took, new,
  take_out, ctake, write, expire, reserve, Step, writing, expiring, reserving, taking, Run, start,
  after, cell_new, cell_take, cell_write, cell_expire, cell_reserve,
}

abbrev pub number : Bool → ℕ
number true = 1
number false = 0

module _ {ℓ} {T : Type ℓ} where
  abbrev pub amount : Option T → ℕ
  amount none = 0
  amount (some x) = 1

  -- The reservations that succeeded.
  abbrev pub wins : List (Event T) → ℕ
  wins [] = 0
  wins (reserved b ∷ events) = number b + wins events
  wins (wrote t ∷ events) = wins events
  wins (expiry ∷ events) = wins events
  wins (took x ∷ events) = wins events

  abbrev pub writes : List (Event T) → ℕ
  writes [] = 0
  writes (wrote t ∷ events) = 1 + writes events
  writes (reserved b ∷ events) = writes events
  writes (expiry ∷ events) = writes events
  writes (took x ∷ events) = writes events

  -- The values taken.
  abbrev pub gains : List (Event T) → ℕ
  gains [] = 0
  gains (took x ∷ events) = amount x + gains events
  gains (wrote t ∷ events) = gains events
  gains (reserved b ∷ events) = gains events
  gains (expiry ∷ events) = gains events

  abbrev pub last_written : List (Event T) → Option T
  last_written [] = none
  last_written (wrote t ∷ events) = some t
  last_written (reserved b ∷ events) = last_written events
  last_written (expiry ∷ events) = last_written events
  last_written (took x ∷ events) = last_written events

  -- What a take would find.
  abbrev pub contents : ChannelResult T → Option T
  contents empty = none
  contents (full t) = some t
  contents expired = none

  take_out-contents :
      (c d : Channel T) (r : ChannelResult T) (x : Option T)
      → take_out c r ≡ some (x, d)
      → (x ≡ contents r) × (contents d.current ≡ none) × (d.available ≡ c.available)
  unfolding take_out
  take_out-contents c d empty x e = ground (arith, e)
  take_out-contents c d expired x e =
      let left : Channel T = record c { current = expired } in
      let value : ◌≡◌ {A = Option T} none x = cc in
      let state : left ≡ d = cc in
      (
        sym value,
        ap (λ (c' : Channel T). contents c'.current) (sym state),
        ap (λ (c' : Channel T). c'.available) (sym state),
      )
  take_out-contents c d (full t) x e =
      let left : Channel T = record c { current = expired } in
      let value : some t ≡ x = cc in
      let state : left ≡ d = cc in
      (
        sym value,
        ap (λ (c' : Channel T). contents c'.current) (sym state),
        ap (λ (c' : Channel T). c'.available) (sym state),
      )

  -- Besides the three promises: at most one reservation is still to be won, and what is held was
  -- written last.
  abbrev Invariant : List (Event T) → Channel T → Type ℓ
  Invariant events c =
      (wins events + number c.available ≡ 1)
      × (gains events + amount (contents c.current) ≤ writes events)
      × ((t : T) → contents c.current ≡ some t → last_written events ≡ some t)

  Step-Invariant :
      {e : Event T} {c d : Channel T} (events : List (Event T))
      → Step c e d
      → Invariant events c
      → Invariant (e ∷ events) d
  unfolding write expire reserve ctake
  Step-Invariant events (writing t) (once, enough, last) = (once, omega arith, λ t' e. e)
  Step-Invariant events expiring (once, enough, last) =
      (once, omega arith, λ t' e. ground (arith, e))
  Step-Invariant {c = c} events reserving (once, enough, last) = (omega arith, enough, last)
  Step-Invariant {c = c} events (taking x d e) (once, enough, last) =
      let (same, gone, kept) = take_out-contents c d c.current x e in
      let as_before : number d.available ≡ number c.available = ap number kept in
      let nothing_left : amount (contents d.current) ≡ 0 = ap amount gone in
      let found : amount x ≡ amount (contents c.current) = ap amount same in
      (omega arith, omega arith, λ t' e'. ground (arith, gone, e'))

  Run-Invariant : {events : List (Event T)} {c : Channel T} → Run new events c → Invariant events c
  unfolding new
  Run-Invariant start = (omega arith, omega arith, λ t e. ground (arith, e))
  Run-Invariant (after {events} r s) = Step-Invariant events s (Run-Invariant r)

  -- In every run of a new channel at most one reservation is won, exactly one once the channel is
  -- not available, and no more values are taken than were written.
  pub Run-single_use :
      (events : List (Event T)) (c : Channel T)
      → Run new events c
      → (wins events ≤ 1) × (gains events ≤ writes events) × (c.available ≡ false → wins events ≡ 1)
  Run-single_use events c r =
      let (once, enough, last) = Run-Invariant r in
      (omega arith, omega arith, λ e. let z = ap number e in omega arith)

  -- In every run of a new channel, a value that is taken is the one written last, and a take
  -- straight after it gets nothing.
  pub took-last_written :
      (events : List (Event T)) (c d : Channel T) (t : T)
      → Run new events c
      → ctake c ≡ some (some t, d)
      → (last_written events ≡ some t)
        × ((x : Option T) (d' : Channel T) → ctake d ≡ some (x, d') → x ≡ none)
  unfolding ctake
  took-last_written events c d t r e =
      let (once, enough, last) = Run-Invariant r in
      let (same, gone, kept) = take_out-contents c d c.current (some t) e in
      (last t (sym same), λ x d' e'. (take_out-contents d d' d.current x e').0 ∙ gone)

  -- The channel without threads that holds the same.
  abbrev pub cell_of : Channel T → Cell T
  cell_of c = record { current = contents c.current }

  -- The channel without threads holds what the one with threads holds, and new, write, expire and
  -- a take that does not wait act alike on both. A reservation changes neither; without threads
  -- it always succeeds, and with threads exactly if the channel is available.
  pub cell-refines :
      (c : Channel T)
      → (cell_of new ≡ cell_new)
        × ((t : T) → cell_of (write c t) ≡ cell_write (cell_of c) t)
        × (cell_of (expire c) ≡ cell_expire (cell_of c))
        × (cell_of (reserve c).1 ≡ cell_of c)
        × ((reserve c).0 ≡ (cell_reserve (cell_of c) && c.available))
        × ((x : Option T) (d : Channel T)
            → ctake c ≡ some (x, d)
            → cell_take (cell_of c) ≡ (x, cell_of d))
  unfolding new cell_new write cell_write expire cell_expire ctake cell_take reserve cell_reserve
  cell-refines c = (
    refl,
    λ t. refl,
    refl,
    refl,
    refl,
    λ x d e.
        let (same, gone, kept) = take_out-contents c d c.current x e in
        ap₂ (λ (u v : Option T). (u, record { current = v })) (sym same) (sym gone),
  )

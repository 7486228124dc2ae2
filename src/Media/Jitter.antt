-- ===== src/Media/Jitter.antt =====
-- src/media/jitter_buffer.cpp. Times and sequence numbers are int64_t in the source and integers
-- here; std::map is a list in ascending order of its keys.
pub mod Run
pub mod Fuel
pub mod Delay
use ketphone.Base.{
  ℕ, zero, suc, ◌+◌, ◌-◌, ◌*◌, ◌/◌, ◌%◌, Bool, true, false, not, ◌&&◌, ◌||◌, List, [], ◌∷◌, Option,
  none, some, ltb, leb, ◌==◌, if◌then◌else◌, get_or, set, take, replicate, min, ℤ, pos, pos_part,
  ◌+ℤ◌, ◌-ℤ◌, ◌*ℤ◌, ltb_ℤ, eqb_ℤ, min_ℤ, max_ℤ, clamp_ℤ, Bytes, is_some, is_empty,
}

-- kFrameUs, kWindow, kWarmup, kMarginUs, kMaxDelayUs, kShrinkAboveUs, kPopsBetweenDrops,
-- kMaxRewind, kMissingBeforeRebuffer and kMaxAhead.
abbrev frame_us : ℤ
frame_us = pos 20_000

abbrev window_size : ℕ
window_size = 250

abbrev warmup : ℕ
warmup = 50

abbrev margin_us : ℤ
margin_us = pos 10_000

abbrev max_delay_us : ℤ
max_delay_us = pos 300_000

abbrev shrink_above_us : ℤ
shrink_above_us = pos 30_000

abbrev pops_between_drops : ℕ
pops_between_drops = 10

abbrev max_rewind : ℤ
max_rewind = pos 15

abbrev missing_before_rebuffer : ℕ
missing_before_rebuffer = 10

abbrev max_ahead : ℤ
max_ahead = pos 500

abbrev pub Frames : Type 0
Frames = List (ℤ × Bytes)

pub record JitterBuffer : Type 0 where
  pub initial_delay_us : ℤ
  pub frames : Frames
  pub next : Option ℤ
  pub last_played : Option ℤ
  pub missing_in_a_row : ℕ
  pub pops_since_drop : ℕ
  pub window : List ℤ
  pub window_count : ℕ
  pub window_next : ℕ
  pub expanded : ℕ
  pub dropped : ℕ
  pub skipped : ℕ

pub data PutResult : Type 0 where
  stored late duplicate : PutResult

pub data PopResult : Type 0 where
  played missing expanding buffering : PopResult

pub init : ℤ → JitterBuffer
init initial_delay_us = record {
  initial_delay_us = clamp_ℤ initial_delay_us margin_us max_delay_us;
  frames = [];
  next = none;
  last_played = none;
  missing_in_a_row = 0;
  pops_since_drop = 0;
  window = replicate window_size (pos 0);
  window_count = 0;
  window_next = 0;
  expanded = 0;
  dropped = 0;
  skipped = 0;
}

-- std::map's find, erase and try_emplace.
find_frame : ℤ → Frames → Option Bytes
find_frame k [] = none
find_frame k ((j, v) ∷ rest) = if eqb_ℤ j k then some v else find_frame k rest

erase_frame : ℤ → Frames → Frames
erase_frame k [] = []
erase_frame k ((j, v) ∷ rest) = if eqb_ℤ j k then rest else (j, v) ∷ erase_frame k rest

insert_frame : ℤ → Bytes → Frames → Frames
insert_frame k v [] = (k, v) ∷ []
insert_frame k v ((j, w) ∷ rest) =
    if ltb_ℤ k j
    then (k, v) ∷ (j, w) ∷ rest
    else if eqb_ℤ j k
    then (j, w) ∷ rest
    else (j, w) ∷ insert_frame k v rest

pub reset : JitterBuffer → JitterBuffer
reset b = record b {
  frames = [];
  next = none;
  last_played = none;
  missing_in_a_row = 0;
  pops_since_drop = 0;
  window_count = 0;
  window_next = 0;
}

record_transit : JitterBuffer → ℤ → JitterBuffer
record_transit b transit_us = record b {
  window = set b.window b.window_next transit_us;
  window_next = (b.window_next + 1) % window_size;
  window_count = min (b.window_count + 1) window_size;
}

-- std::min_element's value.
least : ℤ → List ℤ → ℤ
least m [] = m
least m (x ∷ xs) = least (min_ℤ m x) xs

fastest_of : List ℤ → ℤ
unfolding least
fastest_of [] = pos 0
fastest_of (x ∷ xs) = least x xs

insert_sorted : ℤ → List ℤ → List ℤ
insert_sorted x [] = x ∷ []
insert_sorted x (y ∷ ys) = if ltb_ℤ y x then y ∷ insert_sorted x ys else x ∷ y ∷ ys

sort : List ℤ → List ℤ
unfolding insert_sorted
sort [] = []
sort (x ∷ xs) = insert_sorted x (sort xs)

-- The samples in use.
samples : JitterBuffer → List ℤ
samples b = take b.window_count b.window

-- The value that nth_element puts at `percentile`.
percentile_of : JitterBuffer → ℤ
unfolding samples sort
percentile_of b = get_or (sort (samples b)) (((b.window_count - 1) * 99 + 99) / 100) (pos 0)

desired_offset_us : JitterBuffer → ℤ
unfolding samples fastest_of percentile_of
desired_offset_us b =
    let fastest = fastest_of (samples b) in
    let spread = percentile_of b -ℤ fastest +ℤ margin_us in
    let delay = if ltb b.window_count warmup then max_ℤ spread b.initial_delay_us else spread in
    fastest +ℤ clamp_ℤ delay margin_us max_delay_us

pub target_delay_us : JitterBuffer → ℤ
unfolding desired_offset_us
target_delay_us b =
    if b.window_count == 0
    then b.initial_delay_us
    else desired_offset_us b -ℤ fastest_of (samples b)

-- `next_ && sequence - *next_ > kMaxAhead`.
too_far_ahead : Option ℤ → ℤ → Bool
too_far_ahead none sequence = false
too_far_ahead (some next) sequence = ltb_ℤ max_ahead (sequence -ℤ next)

store : JitterBuffer → ℤ → Bytes → JitterBuffer × PutResult
unfolding find_frame insert_frame
store b sequence payload =
    if is_some (find_frame sequence b.frames)
    then (b, duplicate)
    else (record b { frames = insert_frame sequence payload b.frames }, stored)

-- `!last_played_ || sequence > *last_played_`.
unplayed_since : Option ℤ → ℤ → Bool
unplayed_since none sequence = true
unplayed_since (some last) sequence = ltb_ℤ last sequence

-- put, once the transit is recorded, by the playout point.
put_at : Option ℤ → JitterBuffer → ℤ → Bytes → JitterBuffer × PutResult
unfolding store unplayed_since
put_at none b sequence payload = store b sequence payload
put_at (some next) b sequence payload =
    if ltb_ℤ sequence next
    then (if not (is_empty b.frames)
          || not (unplayed_since b.last_played sequence)
          || ltb_ℤ max_rewind (next -ℤ sequence)
        then (b, late)
        else store (record b { next = some sequence; missing_in_a_row = 0 }) sequence payload)
    else store b sequence payload

pub put : JitterBuffer → ℤ → Bytes → ℤ → JitterBuffer × PutResult
unfolding too_far_ahead reset record_transit put_at
put b sequence payload arrival_us =
    let fresh = if too_far_ahead b.next sequence then reset b else b in
    let recorded = record_transit fresh (arrival_us -ℤ sequence *ℤ frame_us) in
    put_at recorded.next recorded sequence payload

-- The loop that skips slots and drops frames while playout is later than `limit`, from the playout
-- point `next`; the first argument bounds its rounds.
pub shrink : ℕ → ℤ → JitterBuffer → ℤ → ℤ → JitterBuffer × ℤ
shrink zero limit b next offset = (b, next)
shrink (suc fuel) limit b next offset =
    let skip =
      shrink fuel limit (record b { skipped = suc b.skipped }) (next +ℤ pos 1)
        (offset -ℤ frame_us) in
    let drop =
      shrink fuel limit
        (record b {
          frames = erase_frame next b.frames;
          dropped = suc b.dropped;
          pops_since_drop = 0;
        })
        (next +ℤ pos 1) (offset -ℤ frame_us) in
    if ltb_ℤ limit offset && not (is_empty b.frames)
    then (if not (is_some (find_frame next b.frames))
        then skip
        else if leb pops_between_drops b.pops_since_drop
        then drop
        else (b, next))
    else (b, next)

-- Each round lowers the offset by a frame.
abbrev pub shrink_fuel : ℤ → ℤ → ℕ
shrink_fuel limit offset = suc (pos_part (offset -ℤ limit) / 20_000)

-- The result of pop, the buffer, and what `frame` is set to, if it is.
abbrev Popped : Type 0
Popped = PopResult × JitterBuffer × Option Bytes

-- The end of pop, at the playout point.
take_frame : JitterBuffer → ℤ → Option Bytes → Popped
unfolding erase_frame reset
take_frame b next (some payload) = (
  played,
  record b {
    last_played = some next;
    next = some (next +ℤ pos 1);
    frames = erase_frame next b.frames;
    missing_in_a_row = 0;
  },
  some payload,
)
take_frame b next none =
    let passed = record b {
      next = some (next +ℤ pos 1);
      missing_in_a_row = suc b.missing_in_a_row;
    } in
    if is_empty passed.frames && leb missing_before_rebuffer passed.missing_in_a_row
    then (missing, reset passed, none)
    else (missing, passed, none)

-- pop once it is started.
pop_from : JitterBuffer → ℤ → ℤ → Popped
unfolding desired_offset_us shrink take_frame find_frame
pop_from b next now_us =
    let desired = desired_offset_us b in
    let offset = now_us -ℤ next *ℤ frame_us in
    let limit = desired +ℤ shrink_above_us in
    let (shrunk, at) = shrink (shrink_fuel limit offset) limit b next offset in
    let ready = record shrunk { pops_since_drop = suc shrunk.pops_since_drop } in
    if ltb_ℤ offset desired
    then (
      expanding,
      record b { expanded = suc b.expanded; pops_since_drop = suc b.pops_since_drop },
      none,
    )
    else take_frame ready at (find_frame at ready.frames)

-- pop before it is started, by the first frame.
pop_first : JitterBuffer → Frames → ℤ → Popped
unfolding pop_from
pop_first b [] now_us = (buffering, b, none)
pop_first b ((first, payload) ∷ rest) now_us =
    if ltb_ℤ (now_us -ℤ first *ℤ frame_us) (desired_offset_us b)
    then (buffering, b, none)
    else pop_from (record b { next = some first }) first now_us

pop_by : Option ℤ → JitterBuffer → ℤ → Popped
unfolding pop_first
pop_by none b now_us = pop_first b b.frames now_us
pop_by (some next) b now_us = pop_from b next now_us

pub pop : JitterBuffer → ℤ → Popped
unfolding pop_by
pop b now_us = pop_by b.next b now_us

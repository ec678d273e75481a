-- ===== src/Music.antt =====
-- src/music.c and include/music.h: the player, one step per call of `music_update`.
-- What it asks of src/sound.c is kept as a list of requests, the newest first.
mod Tests
use meu_so_baremetal.Prelude.{
  ℕ, zero, suc, ◌+◌, ◌-◌, ◌*◌, ◌%◌, ◌<◌, ◌≡◌, Bool, true, false, not, List, [], ◌∷◌, ◌==◌, get_or,
  length, if◌then◌else◌, arith,
}

pub data Request : Type 0 where
  sound_play : ℕ → Request
  sound_stop : Request

-- Frequency and duration.
abbrev pub Note : Type 0
Note = ℕ × ℕ

abbrev pub track_tetris : List Note
track_tetris =
    (659, 4)
    ∷ (494, 2)
    ∷ (523, 2)
    ∷ (587, 4)
    ∷ (523, 2)
    ∷ (494, 2)
    ∷ (440, 4)
    ∷ (440, 2)
    ∷ (523, 2)
    ∷ (659, 4)
    ∷ (587, 2)
    ∷ (523, 2)
    ∷ (494, 6)
    ∷ (523, 2)
    ∷ (587, 4)
    ∷ (659, 4)
    ∷ (523, 4)
    ∷ (440, 6)
    ∷ (0, 4)
    ∷ []

abbrev pub track_mario : List Note
track_mario =
    (659, 2)
    ∷ (659, 2)
    ∷ (0, 2)
    ∷ (659, 2)
    ∷ (0, 2)
    ∷ (523, 2)
    ∷ (659, 4)
    ∷ (784, 6)
    ∷ (0, 4)
    ∷ (392, 6)
    ∷ (0, 4)
    ∷ []

pub record Player : Type 0 where
  pub is_playing : Bool
  pub current_track : ℕ
  pub note_index : ℕ
  pub note_timer : ℕ
  pub requests : List Request

abbrev pub score : Player → List Note
score s = if s.current_track == 0 then track_tetris else track_mario

unfoldable pub music_init : Player → Player
music_init s = record s { is_playing = false; note_index = 0; note_timer = 0 }

unfoldable pub music_toggle_play : Player → Player
music_toggle_play s =
    if s.is_playing
    then record s { is_playing = false; requests = sound_stop ∷ s.requests }
    else record s { is_playing = true }

unfoldable pub music_next_track : Player → Player
music_next_track s = record s {
  current_track = (s.current_track + 1) % 2;
  note_index = 0;
  note_timer = 0;
}

-- The request for a note; the rest has frequency 0.
abbrev pub request_for : Note → Request
request_for (freq, duration) = if freq == 0 then sound_stop else sound_play freq

unfoldable pub music_update : Player → Player
music_update s =
    let n = get_or (score s) s.note_index (0, 0) in
    if not s.is_playing
    then s
    else if s.note_timer == 0
    then record s { requests = request_for n ∷ s.requests; note_timer = n.1 * 3 }
    else if s.note_timer - 1 == 0
    then record s { note_timer = 0; note_index = (s.note_index + 1) % length (score s) }
    else record s { note_timer = s.note_timer - 1 }

-- The track is one of the two, and the next note is in its score.
pub record IsValid (s : Player) : Type 0 where
  pub track : s.current_track < 2
  pub note : s.note_index < length (score s)

-- A step to a valid state on the same track.
pub record Runs (s s' : Player) : Type 0 where
  pub valid : IsValid s'
  pub same_track : s'.current_track ≡ s.current_track

-- A step of the player reads a note of the score, never past its end, and stays on its track.
pub music_update-Runs : (s : Player) → IsValid s → Runs s (music_update s)
unfolding music_update
music_update-Runs s v = record {
  valid = record { track = ground (arith, v.track); note = ground (arith, v.note) };
  same_track = ground arith;
}

-- The next track starts at its first note, from any state of the player.
pub music_next_track-IsValid : (s : Player) → IsValid (music_next_track s)
unfolding music_next_track
music_next_track-IsValid s = record { track = omega arith; note = ground arith }

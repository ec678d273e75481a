-- ===== src/Music/Tests.antt =====
-- A step of the player of src/music.c.
use meu_so_baremetal.Prelude.{true, []}
use meu_so_baremetal.Music.{Player}

abbrev last_note : Player
last_note = record {
  is_playing = true;
  current_track = 1;
  note_index = 10;
  note_timer = 1;
  requests = [];
}

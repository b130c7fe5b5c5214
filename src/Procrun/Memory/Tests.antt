-- ===== src/Procrun/Memory/Tests.antt =====
-- The memory functions on small regions.
use boundary_event_sdk.Prelude.{◌≡◌, refl, true}
use boundary_event_sdk.Replace.Memory.{Mem, update}
use boundary_event_sdk.Procrun.Memory.{
  copy_memory, fill_memory, copy_forward, copy_backward, rest_up, rest_down, bytes_up, bytes_down,
  words_up, words_down, copy_word, align_up, align_down, rounds, fill_from, fill_aligned,
  fill_words, fill_bytes, store, byte_of, spread,
}
use boundary_event_sdk.Procrun.Memory.Copy.{memmove, copy_memory-memmove}

abbrev numbered : Mem
numbered i = i

abbrev blank : Mem
blank i = 0

copy_memory-memmove_example : copy_memory numbered 7 3 13 ≡ memmove numbered 7 3 13
copy_memory-memmove_example = copy_memory-memmove numbered 7 3 13

overlap_down : copy_memory numbered 7 3 13 19 ≡ 15
unfolding copy_memory copy_backward rest_down bytes_down words_down copy_word align_down rounds
    update
overlap_down = refl

overlap_up : copy_memory numbered 3 7 13 15 ≡ 19
unfolding copy_memory copy_forward rest_up bytes_up words_up copy_word align_up rounds update
overlap_up = refl

-- The bytes 17, 18 and 19 are behind the 13 bytes at 4.
filled_behind : fill_memory true blank 4 13 7 19 ≡ 7
unfolding fill_memory fill_from fill_aligned fill_words fill_bytes store byte_of spread rounds
    update
filled_behind = refl

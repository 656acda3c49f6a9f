-- ===== src/Examples/Free.antt =====
-- `codec_value_free` at concrete values.
use cc_common.Base.{◌≡◌, refl, ltb, not, ◌&&◌, [], ◌∷◌, has, ok, fault, ◌≢◌}
use cc_common.Value.Free.{
  null, at, Heap, Stored, scalar, blob, arr, map, no_items, item, no_fields, field, free_ptr, free,
}
use cc_common.Value.Free.Blocks.{blocks, IsProper}
use cc_common.Value.Free.Laws.{AreDistinct, AreLive, free_lem}
use cc_common.Value.Free.Only.{free-IsProper}
use cc_common.Value.Free.Twice.{free-free}

-- A map from a string to an array of a number and of bytes.
abbrev stored_sample : Stored
stored_sample = map (at 3 0) (
    field (blob (at 0 0))
      (arr (at 2 0) (item scalar (item (blob (at 1 0)) (item (blob null) no_items)))) no_fields)

abbrev four_blocks : Heap
four_blocks c = ltb c 4

blocks-stored_sample : blocks stored_sample ≡ 0 ∷ 1 ∷ 2 ∷ 3 ∷ []
unfolding blocks
blocks-stored_sample = refl

stored_sample-IsProper : IsProper stored_sample
unfolding IsProper
stored_sample-IsProper = (refl, tt, (refl, (refl, tt, (tt, (refl, (tt, tt)))), tt))

blocks-AreDistinct : AreDistinct (blocks stored_sample)
unfolding blocks
blocks-AreDistinct = (refl, (refl, (refl, (refl, tt))))

blocks-AreLive : AreLive four_blocks (blocks stored_sample)
unfolding blocks
blocks-AreLive = (refl, (refl, (refl, (refl, tt))))

free_lem_example :
    free stored_sample four_blocks ≡ ok (λ c. not (has c (blocks stored_sample)) && four_blocks c)
free_lem_example =
    free_lem stored_sample four_blocks stored_sample-IsProper blocks-AreDistinct blocks-AreLive

free-IsProper_example :
    IsProper stored_sample
    × AreDistinct (blocks stored_sample)
    × AreLive four_blocks (blocks stored_sample)
free-IsProper_example =
    free-IsProper stored_sample four_blocks
      (λ c. not (has c (blocks stored_sample)) && four_blocks c) free_lem_example

stored_sample-has_blocks : blocks stored_sample ≢ []
unfolding blocks
stored_sample-has_blocks e = cc

free-free_example :
    free stored_sample (λ c. not (has c (blocks stored_sample)) && four_blocks c) ≡ fault
free-free_example =
    free-free stored_sample four_blocks (λ c. not (has c (blocks stored_sample)) && four_blocks c)
      stored_sample-has_blocks free_lem_example

-- A string that points into the block of the input.
free-inside : free (blob (at 0 2)) four_blocks ≡ fault
unfolding free free_ptr
free-inside = refl

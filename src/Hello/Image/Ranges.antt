-- ===== src/Hello/Image/Ranges.antt =====
-- The range checks against arithmetic without wrap-around.
use minimum_tests.Base.{ℕ, ◌+◌, ◌*◌, ◌^◌, ◌≤◌, ◌<◌, ◌≡◌, ◌↔◌, true, arith}
use minimum_tests.Hello.Image.{image_range_valid, image_records_valid}

-- For words, `image_range_valid` holds exactly when the range ends inside the image, with no
-- wrap-around in the sum; `image_records_valid` does for a table of 32-byte records.
pub image_ranges_iff :
    (offset length count image_size : ℕ)
    → offset < 2 ^ 32
    → image_size < 2 ^ 32
    → ((image_range_valid offset length image_size ≡ true) ↔ (offset + length ≤ image_size))
      × ((image_records_valid offset count image_size ≡ true) ↔ (offset + count * 32 ≤ image_size))
unfolding image_range_valid image_records_valid
image_ranges_iff offset length count image_size ho hi = ground arith

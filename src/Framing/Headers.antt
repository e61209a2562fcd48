-- ===== src/Framing/Headers.antt =====
-- The size in front of the data that send_data_over_socket (nexus/utils.py) sends.
use event_pipeline.Prelude.{
  ℕ, zero, suc, ◌+◌, ◌*◌, ◌/◌, ◌%◌, ◌^◌, ◌<◌, ◌≡◌, refl, ◌∙◌, List, [], ◌∷◌, ◌++◌, length,
  length-append, arith,
}
use event_pipeline.Framing.{digits, from_bytes}

pub length-digits : (k n : ℕ) → length (digits k n) ≡ k
unfolding digits
length-digits zero n = refl
length-digits (suc k) n =
    omega (arith, length-append (digits k (n / 256)) (n % 256 ∷ []), length-digits k (n / 256))

from_bytes-append :
    (n b : ℕ) (bs : List ℕ) → from_bytes n (bs ++ b ∷ []) ≡ 256 * from_bytes n bs + b
unfolding from_bytes
from_bytes-append n b [] = refl
from_bytes-append n b (c ∷ bs) = from_bytes-append (256 * n + c) b bs

-- Big-endian digits read back to the number that they are of.
pub from_bytes-digits : (k n : ℕ) → n < 256 ^ k → from_bytes 0 (digits k n) ≡ n
unfolding digits from_bytes
from_bytes-digits zero n small = omega arith
from_bytes-digits (suc k) n small =
    from_bytes-append 0 (n % 256) (digits k (n / 256))
    ∙ omega (arith, from_bytes-digits k (n / 256) (omega arith))

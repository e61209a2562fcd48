-- ===== src/Framing.antt =====
-- nexus/utils.py: send_data_over_socket and receive_data_from_socket. Bytes are numbers below 256.
pub mod Headers
pub mod Transfer
use event_pipeline.Prelude.{
  ℕ, zero, suc, ◌+◌, ◌-◌, ◌*◌, ◌/◌, ◌%◌, ◌^◌, min, max, Option, none, some, List, [], ◌∷◌, ◌++◌,
  length, ltb, if◌then◌else◌,
}

-- An int that may be negative.
pub data ℤ : Type 0 where
  pos negsuc : ℕ → ℤ

abbrev pub abs : ℤ → ℕ
abs (pos n) = n
abs (negsuc n) = suc n

module _ {A : Type 0} where
  abbrev pub take : ℕ → List A → List A
  take zero xs = []
  take (suc n) [] = []
  take (suc n) (x ∷ xs) = x ∷ take n xs

  abbrev pub drop : ℕ → List A → List A
  drop zero xs = xs
  drop (suc n) [] = []
  drop (suc n) (x ∷ xs) = drop n xs

-- n.to_bytes(k, "big"); `none` is its OverflowError.
unfoldable pub digits : ℕ → ℕ → List ℕ
digits zero n = []
digits (suc k) n = digits k (n / 256) ++ n % 256 ∷ []

abbrev pub to_bytes : ℕ → ℕ → Option (List ℕ)
to_bytes k n = if ltb n (256 ^ k) then some (digits k n) else none

-- int.from_bytes(bytes, "big")
unfoldable pub from_bytes : ℕ → List ℕ → ℕ
from_bytes n [] = n
from_bytes n (b ∷ bs) = from_bytes (256 * n + b) bs

-- The loop of send_data_over_socket: the number of bytes sent, and the bytes.
unfoldable pub send_chunks : ℕ → (chunk_size data_size sent : ℕ) → List ℕ → ℕ × List ℕ
send_chunks zero chunk_size data_size sent stream = (sent, [])
send_chunks (suc fuel) chunk_size data_size sent stream =
    let chunk = take chunk_size stream in
    let rest =
      send_chunks fuel chunk_size data_size (sent + length chunk) (drop chunk_size stream) in
    if ltb sent data_size
    then (elim chunk [ [] ↦ (sent, []) | b ∷ bs ↦ (rest.0, (b ∷ bs) ++ rest.1) ])
    else (sent, [])

abbrev pub send_body : List ℕ → Option ℤ → ℕ × List ℕ
send_body content none = (length content, content)
send_body content (some chunk_size) =
    send_chunks (suc (length content)) (abs chunk_size) (length content) 0 content

-- send_data_over_socket: what it returns, and the bytes that it puts on the socket.
unfoldable pub send_data_over_socket : List ℕ → Option ℤ → Option (ℕ × List ℕ)
send_data_over_socket content chunk_size = elim (to_bytes 8 (length content)) [
  | none ↦ none
  | some header ↦ let (sent, body) = send_body content chunk_size in some (sent, header ++ body)
]

-- The receiving end of a socket: the bytes that have been sent, and how many of them each call of
-- `recv` finds there, at least one; without a number it finds all.
pub record Socket : Type 0 where
  pub incoming : List ℕ
  pub arrivals : List ℕ

abbrev pub granted : List ℕ → ℕ → ℕ
granted [] size = size
granted (a ∷ arrivals) size = min size (max 1 a)

abbrev pub later : List ℕ → List ℕ
later [] = []
later (a ∷ arrivals) = arrivals

-- sock.recv(size)
unfoldable pub recv : ℕ → Socket → List ℕ × Socket
recv size s = (
  take (granted s.arrivals size) s.incoming,
  record { incoming = drop (granted s.arrivals size) s.incoming; arrivals = later s.arrivals },
)

-- The loop of receive_data_from_socket; `none` says that the fuel ran out.
unfoldable pub receive_chunks :
    ℕ → (chunk_size result_size : ℕ) → List ℕ → Socket → Option (List ℕ × Socket)
receive_chunks zero chunk_size result_size received s = none
receive_chunks (suc fuel) chunk_size result_size received s =
    let (chunk, s') = recv (min chunk_size (result_size - length received)) s in
    let rest = receive_chunks fuel chunk_size result_size (received ++ chunk) s' in
    if ltb (length received) result_size
    then (elim chunk [ [] ↦ some (received, s') | b ∷ bs ↦ rest ])
    else some (received, s)

unfoldable pub receive_data_from_socket : ℕ → Socket → Option (List ℕ × Socket)
receive_data_from_socket chunk_size s =
    let (header, s') = recv 8 s in
    let result_size = from_bytes 0 header in
    receive_chunks (suc result_size) chunk_size result_size [] s'

-- ===== src/Framing/Transfer.antt =====
-- Whole transfers over a socket (nexus/utils.py).
use event_pipeline.Prelude.{
  ℕ, zero, suc, ◌+◌, ◌-◌, ◌^◌, ◌<◌, ◌≤◌, ◌≡◌, ◌≢◌, refl, ◌∙◌, ap, sym, subst, min, max, true, false,
  Option, none, some, List, [], ◌∷◌, ◌++◌, length, length-append, ltb, arith,
}
use mathlib.Core.List.{append_assoc, append-nil}
use event_pipeline.Framing.{
  ℤ, pos, negsuc, take, drop, digits, to_bytes, from_bytes, send_chunks, send_body,
  send_data_over_socket, Socket, granted, later, recv, receive_chunks, receive_data_from_socket,
}
use event_pipeline.Framing.Headers.{length-digits, from_bytes-digits}

module _ {A : Type 0} where
  pub length-take : (n : ℕ) (xs : List A) → length (take n xs) ≡ min n (length xs)
  length-take zero xs = omega arith
  length-take (suc n) [] = omega arith
  length-take (suc n) (x ∷ xs) = omega (arith, length-take n xs)

  pub length-drop : (n : ℕ) (xs : List A) → length (drop n xs) ≡ length xs - n
  length-drop zero xs = omega arith
  length-drop (suc n) [] = omega arith
  length-drop (suc n) (x ∷ xs) = omega (arith, length-drop n xs)

  pub take-append-drop : (n : ℕ) (xs : List A) → take n xs ++ drop n xs ≡ xs
  take-append-drop zero xs = refl
  take-append-drop (suc n) [] = refl
  take-append-drop (suc n) (x ∷ xs) = ap (λ (ys : List A). x ∷ ys) (take-append-drop n xs)

  take_whole : (xs ys : List A) → take (length xs) (xs ++ ys) ≡ xs
  take_whole [] ys = refl
  take_whole (x ∷ xs) ys = ap (λ (zs : List A). x ∷ zs) (take_whole xs ys)

  drop_whole : (xs ys : List A) → drop (length xs) (xs ++ ys) ≡ ys
  drop_whole [] ys = refl
  drop_whole (x ∷ xs) ys = drop_whole xs ys

  -- A piece of a prefix, and the rest of the prefix.
  take_in_two :
      (n m d : ℕ) (xs : List A)
      → m ≡ n + d
      → n ≤ length xs
      → take n xs ++ take d (drop n xs) ≡ take m xs
  take_in_two zero m d xs e h = ap (λ (j : ℕ). take j xs) {x = d} {y = m} (omega arith)
  take_in_two (suc n) m d [] e h = absurd (omega arith)
  take_in_two (suc n) zero d (x ∷ xs) e h = absurd (omega arith)
  take_in_two (suc n) (suc m) d (x ∷ xs) e h =
      ap (λ (ys : List A). x ∷ ys) (take_in_two n m d xs (omega arith) (omega arith))

  drop_none : (d : ℕ) → drop {A = A} d [] ≡ []
  drop_none zero = refl
  drop_none (suc d) = refl

  drop_in_two : (n m d : ℕ) (xs : List A) → m ≡ n + d → drop d (drop n xs) ≡ drop m xs
  drop_in_two zero m d xs e = ap (λ (j : ℕ). drop j xs) {x = d} {y = m} (omega arith)
  drop_in_two (suc n) m d [] e = drop_none d ∙ sym (drop_none m)
  drop_in_two (suc n) zero d (x ∷ xs) e = absurd (omega arith)
  drop_in_two (suc n) (suc m) d (x ∷ xs) e = drop_in_two n m d xs (omega arith)

-- The loop sends everything.
send_chunks_all :
    (fuel chunk_size data_size sent : ℕ) (stream : List ℕ)
    → 0 < chunk_size
    → data_size ≡ sent + length stream
    → length stream < fuel
    → send_chunks fuel chunk_size data_size sent stream ≡ (data_size, stream)
unfolding send_chunks
send_chunks_all zero chunk_size data_size sent stream positive size room = absurd (omega arith)
send_chunks_all (suc fuel) chunk_size data_size sent [] positive size room = ground arith
send_chunks_all (suc fuel) zero data_size sent (b ∷ bs) positive size room = absurd (omega arith)
send_chunks_all (suc fuel) (suc c) data_size sent (b ∷ bs) positive size room =
    let rest =
      send_chunks_all fuel (suc c) data_size (sent + suc (length (take c bs))) (drop c bs) positive
        (omega (arith, length-take c bs, length-drop c bs))
        (omega (arith, length-take c bs, length-drop c bs)) in
    rw rest (ground (arith, take-append-drop c bs))

-- A chunk of what is left.
granted_bounds :
    (arrivals : List ℕ) (size : ℕ)
    → 0 < size
    → (0 < granted arrivals size) × (granted arrivals size ≤ size)
granted_bounds [] size h = (h, omega arith)
granted_bounds (a ∷ arrivals) size h = omega arith

module _ (chunk_size result_size : ℕ) (positive : 0 < chunk_size) where
  -- The loop has received as much as was missing, and left the rest on the socket.
  abbrev Received : ℕ → ℕ → List ℕ → Socket → Type 0
  Received fuel missing received s =
      (left : List ℕ) × (receive_chunks fuel chunk_size result_size received s
        ≡ some (
          received ++ take missing s.incoming,
          record { incoming = drop missing s.incoming; arrivals = left },
        ))

  abbrev Receives : ℕ → Type 0
  Receives fuel =
      (missing : ℕ) (received : List ℕ) (s : Socket)
      → result_size ≡ length received + missing
      → missing ≤ length s.incoming
      → missing < fuel
      → Received fuel missing received s

  nothing_missing :
      (fuel : ℕ) (received : List ℕ) (s : Socket)
      → result_size ≡ length received
      → Received (suc fuel) 0 received s
  unfolding receive_chunks
  nothing_missing fuel received s size =
      let full : ltb (length received) result_size ≡ false = ground (arith, size) in
      (s.arrivals, rw full (rw (append-nil received) refl))

  recv_lem :
      (size n b : ℕ) (bs arrivals : List ℕ)
      → granted arrivals size ≡ suc n
      → recv size (record { incoming = b ∷ bs; arrivals = arrivals })
        ≡ (b ∷ take n bs, record { incoming = drop n bs; arrivals = later arrivals })
  unfolding recv
  recv_lem size n b bs arrivals e = rw e refl

  round_goes_on :
      (fuel : ℕ) (received : List ℕ) (s : Socket) (b : ℕ) (bs : List ℕ) (s' : Socket)
      → recv (min chunk_size (result_size - length received)) s ≡ (b ∷ bs, s')
      → length received < result_size
      → receive_chunks (suc fuel) chunk_size result_size received s
        ≡ receive_chunks fuel chunk_size result_size (received ++ b ∷ bs) s'
  unfolding receive_chunks
  round_goes_on fuel received s b bs s' e more =
      let test : ltb (length received) result_size ≡ true = ground (arith, more) in
      rw test (
        rw e (
          ap
            (λ (r : List ℕ × Socket).
              receive_chunks fuel chunk_size result_size (received ++ r.0) r.1)
            e))

  -- A round that receives n + 1 bytes.
  round-Receives :
      (fuel missing n : ℕ) (received : List ℕ) (b : ℕ) (bs arrivals : List ℕ)
      → Receives fuel
      → granted arrivals (min chunk_size (result_size - length received)) ≡ suc n
      → n ≤ missing
      → result_size ≡ length received + suc missing
      → missing ≤ length bs
      → missing < fuel
      → Received
          (suc fuel)
          (suc missing)
          received
          (record { incoming = b ∷ bs; arrivals = arrivals })
  round-Receives fuel missing n received b bs arrivals receives size_of_chunk less size there room =
      let s' : Socket = record { incoming = drop n bs; arrivals = later arrivals } in
      let (left, rest) =
        receives (missing - n) (received ++ b ∷ take n bs) s'
          (omega (arith, length-append received (b ∷ take n bs), length-take n bs))
          (omega (arith, length-drop n bs)) (omega arith) in
      (
        left,
        round_goes_on fuel received (record { incoming = b ∷ bs; arrivals = arrivals }) b
              (take n bs) s'
              (recv_lem (min chunk_size (result_size - length received)) n b bs arrivals
                size_of_chunk)
              (omega arith)
            ∙ rest
            ∙ ap
                (λ (xs : List ℕ).
                  some (xs, record { incoming = drop (missing - n) (drop n bs); arrivals = left }))
                (append_assoc received (b ∷ take n bs) (take (missing - n) (drop n bs))
                  ∙ ap (λ (ys : List ℕ). received ++ b ∷ ys)
                      (take_in_two n missing (missing - n) bs (omega arith) (omega arith)))
            ∙ ap
                (λ (ds : List ℕ).
                  some (received ++ b ∷ take missing bs, record { incoming = ds; arrivals = left }))
                (drop_in_two n missing (missing - n) bs (omega arith)),
      )

  split_incoming :
      (fuel missing : ℕ) (received incoming arrivals : List ℕ)
      → Receives fuel
      → result_size ≡ length received + suc missing
      → suc missing ≤ length incoming
      → suc missing < suc fuel
      → Received
          (suc fuel)
          (suc missing)
          received
          (record { incoming = incoming; arrivals = arrivals })
  split_incoming fuel missing received [] arrivals receives size there room = absurd (omega arith)
  split_incoming fuel missing received (b ∷ bs) arrivals receives size there room =
      let asked = min chunk_size (result_size - length received) in
      let (some_bytes, no_more) = granted_bounds arrivals asked (omega arith) in
      round-Receives fuel missing (granted arrivals asked - 1) received b bs arrivals receives
        (omega arith) (omega arith) size (omega arith) (omega arith)

  receive_chunks_all : (fuel : ℕ) → Receives fuel
  receive_chunks_all zero missing received s size there room = absurd (omega arith)
  receive_chunks_all (suc fuel) zero received s size there room =
      nothing_missing fuel received s (omega arith)
  receive_chunks_all (suc fuel) (suc missing) received s size there room =
      split_incoming fuel missing received s.incoming s.arrivals (receive_chunks_all fuel) size
        there room

send_body_all :
    (content : List ℕ) (sent_in : Option ℤ)
    → sent_in ≢ some (pos 0)
    → send_body content sent_in ≡ (length content, content)
send_body_all content none h = refl
send_body_all content (some (pos zero)) h = absurd (h refl)
send_body_all content (some (pos (suc c))) h =
    send_chunks_all (suc (length content)) (suc c) (length content) 0 content (omega arith)
      (omega arith) (omega arith)
send_body_all content (some (negsuc c)) h =
    send_chunks_all (suc (length content)) (suc c) (length content) 0 content (omega arith)
      (omega arith) (omega arith)

header_fits : (n : ℕ) → n < 2 ^ 64 → to_bytes 8 n ≡ some (digits 8 n)
header_fits n small = ground arith

sent_bytes :
    (content : List ℕ) (sent_in : Option ℤ)
    → length content < 2 ^ 64
    → sent_in ≢ some (pos 0)
    → send_data_over_socket content sent_in
      ≡ some (length content, digits 8 (length content) ++ content)
unfolding send_data_over_socket
sent_bytes content sent_in small h =
    rw (header_fits (length content) small, send_data_over_socket)
      (rw (send_body_all content sent_in h) refl)

take_header : (n : ℕ) (xs ys : List ℕ) → length xs ≡ n → take n (xs ++ ys) ≡ xs
take_header n xs ys e = subst (λ k. take k (xs ++ ys) ≡ xs) e (take_whole xs ys)

drop_header : (n : ℕ) (xs ys : List ℕ) → length xs ≡ n → drop n (xs ++ ys) ≡ ys
drop_header n xs ys e = subst (λ k. drop k (xs ++ ys) ≡ ys) e (drop_whole xs ys)

-- The first call of `recv` takes a header of eight bytes.
receive_header :
    (header body arrivals : List ℕ) (first : ℕ)
    → length header ≡ 8
    → 8 ≤ first
    → recv 8 (record { incoming = header ++ body; arrivals = first ∷ arrivals })
      ≡ (header, record { incoming = body; arrivals = arrivals })
unfolding recv
receive_header header body arrivals first size whole =
    let whole' : min 8 (max 1 first) ≡ 8 = omega arith in
    rw whole' (rw (take_header 8 header body size) (rw (drop_header 8 header body size) refl))

-- Whatever data of fewer than 2 ^ 64 bytes send_data_over_socket sends, in whatever chunks (of any size but 0, or in one piece), and in whatever pieces it then arrives, receive_data_from_socket gives back this data and leaves what follows on the socket, if the first call of `recv` finds the whole header; and send_data_over_socket returns the number of bytes of the data.
pub receive-send :
    (content following arrivals : List ℕ) (sent_in : Option ℤ) (chunk_size first : ℕ)
    → length content < 2 ^ 64
    → sent_in ≢ some (pos 0)
    → 0 < chunk_size
    → 8 ≤ first
    → (bytes left : List ℕ) × (send_data_over_socket content sent_in ≡ some (length content, bytes))
      × (receive_data_from_socket chunk_size
            (record { incoming = bytes ++ following; arrivals = first ∷ arrivals })
          ≡ some (content, record { incoming = following; arrivals = left }))
unfolding receive_data_from_socket
receive-send content following arrivals sent_in chunk_size first small not_zero positive whole =
    let bytes = digits 8 (length content) ++ content in
    let received =
      receive_chunks_all chunk_size (length content) positive (suc (length content))
        (length content) [] (record { incoming = content ++ following; arrivals = arrivals })
        (omega arith) (omega (arith, length-append content following)) (omega arith) in
    (
      bytes,
      received.0,
      sent_bytes content sent_in small not_zero,
      ap
            (λ (xs : List ℕ).
              receive_data_from_socket chunk_size
                (record { incoming = xs; arrivals = first ∷ arrivals }))
            (append_assoc (digits 8 (length content)) content following)
          ∙ ap
              (λ (r : List ℕ × Socket).
                receive_chunks (suc (from_bytes 0 r.0)) chunk_size (from_bytes 0 r.0) [] r.1)
              (receive_header (digits 8 (length content)) (content ++ following) arrivals first
                (length-digits 8 (length content)) whole)
          ∙ ap
              (λ (n : ℕ).
                receive_chunks (suc n) chunk_size n []
                  (record { incoming = content ++ following; arrivals = arrivals }))
              (from_bytes-digits 8 (length content) (omega arith))
          ∙ received.1
          ∙ ap
              (λ (xs : List ℕ). some (
                xs,
                record {
                  incoming = drop (length content) (content ++ following);
                  arrivals = received.0;
                },
              ))
              (take_whole content following)
          ∙ ap (λ (xs : List ℕ). some (content, record { incoming = xs; arrivals = received.0 }))
              (drop_whole content following),
    )

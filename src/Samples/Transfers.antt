-- ===== src/Samples/Transfers.antt =====
-- Tests of transfers over a socket.
use event_pipeline.Prelude.{ℕ, ◌≡◌, refl, some, List, [], ◌∷◌, ◌++◌, arith}
use event_pipeline.Framing.{
  pos, negsuc, digits, from_bytes, send_chunks, send_data_over_socket, recv, receive_chunks,
  receive_data_from_socket,
}
use event_pipeline.Framing.Transfer.{receive-send}

abbrev content : List ℕ
content = 7 ∷ 8 ∷ 9 ∷ []

three_bytes :
    send_data_over_socket content (some (negsuc 1))
    ≡ some (3, 0 ∷ 0 ∷ 0 ∷ 0 ∷ 0 ∷ 0 ∷ 0 ∷ 3 ∷ 7 ∷ 8 ∷ 9 ∷ [])
unfolding send_data_over_socket digits send_chunks
three_bytes = refl

received_in_pieces :
    receive_data_from_socket 2 (record {
      incoming = 0 ∷ 0 ∷ 0 ∷ 0 ∷ 0 ∷ 0 ∷ 0 ∷ 3 ∷ 7 ∷ 8 ∷ 9 ∷ 5 ∷ [];
      arrivals = 11 ∷ 1 ∷ 9 ∷ [];
    })
    ≡ some (content, record { incoming = 5 ∷ []; arrivals = [] })
unfolding receive_data_from_socket recv from_bytes receive_chunks
received_in_pieces = refl

-- With chunks of size 0 the announced bytes are not sent.
nothing_sent :
    send_data_over_socket content (some (pos 0)) ≡ some (0, 0 ∷ 0 ∷ 0 ∷ 0 ∷ 0 ∷ 0 ∷ 0 ∷ 3 ∷ [])
unfolding send_data_over_socket digits send_chunks
nothing_sent = refl

receive-send_example :
    (bytes left : List ℕ) × (send_data_over_socket content (some (pos 2)) ≡ some (3, bytes))
    × (receive_data_from_socket 2 (record { incoming = bytes ++ 5 ∷ []; arrivals = 11 ∷ 1 ∷ [] })
        ≡ some (content, record { incoming = 5 ∷ []; arrivals = left }))
receive-send_example =
    receive-send content (5 ∷ []) (1 ∷ []) (some (pos 2)) 2 11 (omega arith) (λ e. cc) (omega arith)
      (omega arith)

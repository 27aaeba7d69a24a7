-- ===== src/Net/Socket.antt =====
-- include/novacache/net/socket.hpp and src/net/socket.cpp: the non-blocking calls that the server
-- makes. What the operating system will answer is a list; at its end nothing is there yet.
use distributed_data_store.Prelude.{ℕ, zero, suc, List, [], ◌∷◌, ◌++◌, Bytes, take}

-- What one call of ::recv returns: some bytes, 0, or -1 with EINTR, with EAGAIN, with another errno.
pub data Received : Type 0 where
  got : Bytes → Received
  end_of_stream recv_interrupted recv_again recv_failed : Received

-- What one call of ::send returns: a number of bytes, or -1 with the same.
pub data Sent : Type 0 where
  took : ℕ → Sent
  send_interrupted send_again send_failed : Sent

-- The descriptor with its environment: the answers to come, and the bytes that the system has taken.
pub record Socket : Type 0 where
  pub incoming : List Received
  pub outgoing : List Sent
  pub sent : Bytes

-- IoResult with the bytes in the buffer; `threw` is throw_socket_error.
pub data Receive : Type 0 where
  received : Bytes → Receive
  would_block closed threw : Receive

-- The loop of try_receive over the answers. A read of no bytes is the end of the stream.
unfoldable pub receive_from : List Received → Receive × List Received
receive_from [] = (would_block, [])
receive_from (got [] ∷ answers) = (closed, answers)
receive_from (got (b ∷ bytes) ∷ answers) = (received (b ∷ bytes), answers)
receive_from (end_of_stream ∷ answers) = (closed, answers)
receive_from (recv_interrupted ∷ answers) = receive_from answers
receive_from (recv_again ∷ answers) = (would_block, answers)
receive_from (recv_failed ∷ answers) = (threw, answers)

unfoldable pub try_receive : Socket → Receive × Socket
try_receive s = let (r, answers) = receive_from s.incoming in (r, record s { incoming = answers })

pub data Send : Type 0 where
  accepted : ℕ → Send
  would_block closed threw : Send

-- The loop of try_send over the answers.
unfoldable pub send_to : List Sent → Send × List Sent
send_to [] = (would_block, [])
send_to (took zero ∷ answers) = (closed, answers)
send_to (took (suc n) ∷ answers) = (accepted (suc n), answers)
send_to (send_interrupted ∷ answers) = send_to answers
send_to (send_again ∷ answers) = (would_block, answers)
send_to (send_failed ∷ answers) = (threw, answers)

-- The bytes that the system takes are the first of those that it is given.
abbrev pub delivered : Send → Bytes → Bytes
delivered (accepted n) bytes = take n bytes
delivered _ bytes = []

unfoldable pub try_send : Bytes → Socket → Send × Socket
try_send [] s = (accepted 0, s)
try_send (b ∷ bytes) s =
    let (r, answers) = send_to s.outgoing in
    (r, record s { outgoing = answers; sent = s.sent ++ delivered r (b ∷ bytes) })

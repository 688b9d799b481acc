-- ===== src/Network/Tests.antt =====
-- The devices on small inputs.
use low_level_programming.Shared.{
  ℕ, ◌≡◌, refl, true, none, some, List, [], ◌∷◌, ◌++◌, replicate, Option, All, Outcome, ok, fault,
  thrown, stuck, suc, arith,
}
use low_level_programming.Messages.Bytes.{Buffer, load_bytes}
use low_level_programming.Engine.State.{OutboundMessage, Engine, start}
use low_level_programming.Allocator.{free}
use low_level_programming.Engine.Send.{
  accepted_bytes, executed_bytes, cancelled_bytes, cancel_rejected_bytes,
}
use low_level_programming.Network.Sockets.{
  Sockets, setup_listening_socket, Boot, up, exited, threw, no_fd, response_size,
}
use low_level_programming.Network.Uring.{
  write, Owned, Device, new, send_msg, prep_send, submit_all, cqe_seen,
}
use low_level_programming.Network.Uring.Completion.{
  Completion, Received, take_flight, receive_locked, receive_msg, finished, drop,
}
use low_level_programming.Network.Uring.World.{
  World, world, IsCompletion, note, note_message, place, Step, Reach,
}
use low_level_programming.Network.Uring.Invariant.{owned}
use low_level_programming.Network.Uring.Safety.{
  Sound, Progress, run-Sound, run-Progress, receive_msg-returns,
}
use low_level_programming.Network.Uring.Sends.{to, send_msg-later_first}
use low_level_programming.Network.Uring.Replies.{Carried, replies-Carried}
use low_level_programming.Network.Epoll
use low_level_programming.Network.Epoll.Watch.{AreFresh, Served, all_messages, run, epoll-Served}

-- The socket of a port has its number.
abbrev sockets : Sockets
sockets = record { socket = λ port. port; bind = λ port. 0; listen = λ port. 0 }

abbrev device_of : Boot Device → Device
device_of (up d) = d
device_of exited = record {
  inflight_requests = [];
  listening_fds = [];
  queue = [];
  calls = [];
  allocated = 0;
}
device_of threw = record {
  inflight_requests = [];
  listening_fds = [];
  queue = [];
  calls = [];
  allocated = 0;
}

abbrev booted : Device
booted = device_of (new sockets 0 49152)

booted_up : new sockets 0 49152 ≡ up booted
unfolding new setup_listening_socket
booted_up = refl

abbrev executed : OutboundMessage
executed = record { account = 7; bytes = b'E' ∷ replicate 63 1 }

abbrev sent_world : World
sent_world = record (note_message executed (world booted)) {
  device = (send_msg 1 executed booted).1;
}

abbrev ten_bytes : Completion
ten_bytes = record { user_data = 10; res = 10; received = [] }

abbrev the_write : Owned
the_write = owned write 10 7 no_fd (b'E' ∷ replicate 35 1)

reached : Reach (world booted) sent_world
reached = Reach.after Reach.here (Step.send 1 executed)

sent_idle : sent_world.reading ≡ none
unfolding note_message
sent_idle = refl

ten_bytes-IsCompletion : IsCompletion sent_world ten_bytes the_write booted.inflight_requests
unfolding new setup_listening_socket send_msg response_size take_flight note_message
ten_bytes-IsCompletion = record {
  taken_out = refl;
  fresh = λ e good. refl;
  received = λ e good. absurd (cc);
  nothing = λ other. refl;
  sent = λ e good. omega arith;
}

abbrev received_of : Outcome Received → Received
received_of (ok r) = r
received_of fault = finished booted
received_of thrown = finished booted
received_of stuck = finished booted

abbrev handled : Received
handled = received_of (receive_locked [] (some ten_bytes) sent_world.device)

abbrev partial_world : World
partial_world = place handled (note ten_bytes the_write sent_world)

handled_lem : receive_locked [] (some ten_bytes) sent_world.device ≡ ok handled
unfolding new setup_listening_socket send_msg response_size receive_locked
handled_lem = refl

reached_partial : Reach (world booted) partial_world
reached_partial = Reach.after reached (Step.receive [] sent_idle ten_bytes-IsCompletion handled_lem)

run-Sound_example : Sound partial_world
run-Sound_example = run-Sound sockets 0 49152 booted booted_up partial_world reached_partial

run-Progress_example : Progress partial_world 10
run-Progress_example =
    run-Progress sockets 0 49152 booted booted_up partial_world reached_partial 10

receive_msg-returns_example :
    (d' : Device) × (receive_msg [] (some ten_bytes) sent_world.device ≡ ok d')
receive_msg-returns_example =
    receive_msg-returns sockets 0 49152 booted booted_up sent_world reached [] ten_bytes the_write
      booted.inflight_requests sent_idle ten_bytes-IsCompletion

abbrev one_reply : Buffer
one_reply = b'E' ∷ replicate 63 1

abbrev other_reply : Buffer
other_reply = b'C' ∷ replicate 63 2

send_msg-later_first_example :
    (d' : Device) × (receive_msg []
        (some (record { user_data = booted.allocated; res = 10; received = [] }))
        (send_msg 1 (to 7 other_reply) (send_msg 1 (to 7 one_reply) booted).1).1
      ≡ ok d')
    × (d'.calls
        ≡ booted.calls
          ++ (prep_send booted.allocated 7 (load_bytes one_reply 0 36)
              ∷ submit_all
              ∷ prep_send (suc booted.allocated) 7 (load_bytes other_reply 0 18)
              ∷ submit_all
              ∷ cqe_seen
              ∷ prep_send booted.allocated 7 (drop 10 (load_bytes one_reply 0 36))
              ∷ submit_all
              ∷ []))
unfolding response_size
send_msg-later_first_example =
    send_msg-later_first booted 7 one_reply other_reply 36 18 1 1 refl refl 10 (omega arith)
      (omega arith) []

abbrev engine : Engine
engine = start 2 (record { slots = λ p. free none; free_head = none })

replies-Carried_example :
    ((time : ℕ) (order : Buffer) (id : ℕ)
      → Carried 1 booted 7 engine (accepted_bytes time order id))
    × ((time user_ref_num qty price liquidity match : ℕ)
        → Carried 1 booted 7 engine (executed_bytes time user_ref_num qty price liquidity match))
    × ((time user_ref_num qty reason : ℕ)
        → Carried 1 booted 7 engine (cancelled_bytes time user_ref_num qty reason))
    × ((time user_ref_num : ℕ)
        → Carried 1 booted 7 engine (cancel_rejected_bytes time user_ref_num))
replies-Carried_example = replies-Carried 1 booted 7 engine

abbrev epoll_of : Boot Epoll.Device → Epoll.Device
epoll_of (up d) = d
epoll_of exited = record { fds = []; queue = []; calls = [] }
epoll_of threw = record { fds = []; queue = []; calls = [] }

abbrev polled : Epoll.Device
polled = epoll_of (Epoll.new sockets (λ port. 0) 3 49152)

polled_up : Epoll.new sockets (λ port. 0) 3 49152 ≡ up polled
unfolding Epoll.new setup_listening_socket
polled_up = refl

-- a client on the first port, and then what it sends
abbrev rounds : List (Option (List Epoll.Event))
rounds =
    some (
      record {
        fd = 49152;
        readable = true;
        accepted = 7;
        added = 0;
        count = 0;
        received = [];
        stack = [];
      }
      ∷ [])
    ∷ none
    ∷ some (
        record {
          fd = 7;
          readable = true;
          accepted = 8;
          added = 0;
          count = 2;
          received = b'C' ∷ 1 ∷ [];
          stack = replicate 47 0;
        }
        ∷ [])
    ∷ []

rounds-AreFresh : All (AreFresh polled.fds) rounds
unfolding Epoll.new setup_listening_socket
rounds-AreFresh = ((refl, tt), (tt, ((refl, tt), tt)))

epoll-Served_example : Served polled.fds (all_messages polled.fds rounds) (run rounds polled)
epoll-Served_example =
    epoll-Served sockets (λ port. 0) 3 49152 polled polled_up rounds rounds-AreFresh

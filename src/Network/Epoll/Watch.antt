-- ===== src/Network/Epoll/Watch.antt =====
-- Which descriptors the epoll instance watches, and which messages reach the queue.
use low_level_programming.Shared.{
  ℕ, zero, suc, ◌+◌, ◌≡◌, refl, Bool, true, false, not, ◌&&◌, Option, none, some, List, [], ◌∷◌,
  ◌++◌, append-nil, append_assoc, ◌⊎◌, ◌==◌, ◌||◌, if◌then◌else◌, u32, All, arith, Bool-cases, inl,
  inr, Option-cases, subst,
}
use low_level_programming.Messages.Bytes.{store_bytes}
use low_level_programming.Engine.State.{InboundMessage}
use low_level_programming.Network.Sockets.{is_negative, Sockets, setup_listening_socket, up}
use low_level_programming.Network.Epoll.{
  at_most_zero, Call, epoll_add, close_fd, write_to, Device, call, contains, listen_on, new, Event,
  handle_event, handle_events, receive_msg,
}

-- After these calls the descriptor is in the epoll instance: it was added, and not closed since.
abbrev pub watches : ℕ → Bool → List Call → Bool
watches fd b [] = b
watches fd b (epoll_add x ∷ cs) = watches fd (b || x == fd) cs
watches fd b (close_fd x ∷ cs) = watches fd (b && not (x == fd)) cs
watches fd b (write_to x bytes ∷ cs) = watches fd b cs

abbrev pub watched : Device → ℕ → Bool
watched d fd = watches fd false d.calls

-- the message of an event on a client that sent something
abbrev pub message_of : List ℕ → Event → List InboundMessage
message_of fds ev =
    if ev.readable && not (contains ev.fd fds) && not (at_most_zero ev.count)
    then record { account = u32 ev.fd; bytes = store_bytes ev.stack 0 ev.received } ∷ []
    else []

abbrev pub messages_of : List ℕ → List Event → List InboundMessage
messages_of fds [] = []
messages_of fds (ev ∷ evs) = message_of fds ev ++ messages_of fds evs

abbrev pub run : List (Option (List Event)) → Device → Device
run [] d = d
run (r ∷ rs) d = run rs (receive_msg r d)

abbrev pub all_messages : List ℕ → List (Option (List Event)) → List InboundMessage
all_messages fds [] = []
all_messages fds (none ∷ rs) = all_messages fds rs
all_messages fds (some evs ∷ rs) = messages_of fds evs ++ all_messages fds rs

-- The kernel gives no client the descriptor of a listening socket.
abbrev pub IsFresh : List ℕ → Event → Type 0
IsFresh fds ev = contains ev.accepted fds ≡ false

abbrev pub AreFresh : List ℕ → Option (List Event) → Type 0
AreFresh fds none = Unit {0}
AreFresh fds (some evs) = All (IsFresh fds) evs

watches-append :
    (fd : ℕ) (b : Bool) (cs ds : List Call)
    → watches fd b (cs ++ ds) ≡ watches fd (watches fd b cs) ds
watches-append fd b [] ds = refl
watches-append fd b (epoll_add x ∷ cs) ds = watches-append fd (b || x == fd) cs ds
watches-append fd b (close_fd x ∷ cs) ds = watches-append fd (b && not (x == fd)) cs ds
watches-append fd b (write_to x bytes ∷ cs) ds = watches-append fd b cs ds

contains-apart :
    (fd x : ℕ) (fds : List ℕ) → contains fd fds ≡ true → contains x fds ≡ false → (x == fd) ≡ false
contains-apart fd x [] h k = ground arith
contains-apart fd x (y ∷ ys) h k = ground (arith, contains-apart fd x ys)

-- What a round keeps and adds.
pub record Served (fds : List ℕ) (queue : List InboundMessage) (d : Device) : Type 0 where
  pub same : d.fds ≡ fds
  pub listening : (fd : ℕ) → (contains fd fds ≡ false) ⊎ (watched d fd ≡ true)
  pub enqueued : d.queue ≡ queue

keeps_watch :
    (fds : List ℕ) (ev : Event) (d : Device) (fd : ℕ)
    → IsFresh fds ev
    → d.fds ≡ fds
    → contains fd fds ≡ true
    → watched d fd ≡ true
    → watched (handle_event ev d) fd ≡ true
unfolding handle_event
keeps_watch fds ev d fd fresh same listed now =
    let apart : (ev.accepted == fd) ≡ false = contains-apart fd ev.accepted fds listed fresh in
    ground (
      arith,
      watches-append fd false d.calls (epoll_add ev.accepted ∷ []),
      watches-append fd false (d.calls ++ (epoll_add ev.accepted ∷ [])) (close_fd ev.accepted ∷ []),
      watches-append fd false d.calls (close_fd ev.fd ∷ []),
      contains-apart fd ev.fd fds,
    )

handle_event-Served :
    (fds : List ℕ) (queue : List InboundMessage) (ev : Event) (d : Device)
    → IsFresh fds ev
    → Served fds queue d
    → Served fds (queue ++ message_of fds ev) (handle_event ev d)
unfolding handle_event
handle_event-Served fds queue ev d fresh v = record {
  same = ground (arith, v.same);
  listening = λ fd. elim (Bool-cases (contains fd fds)) [
    | inr other ↦ inl other
    | inl listed ↦
        inr (keeps_watch fds ev d fd fresh v.same listed (ground (arith, v.listening fd)))
  ];
  enqueued = ground (arith, v.enqueued, v.same, append-nil queue);
}

handle_events-Served :
    (fds : List ℕ) (queue : List InboundMessage) (evs : List Event) (d : Device)
    → All (IsFresh fds) evs
    → Served fds queue d
    → Served fds (queue ++ messages_of fds evs) (handle_events evs d)
unfolding handle_events
handle_events-Served fds queue [] d fresh v = rw append-nil v
handle_events-Served fds queue (ev ∷ evs) d fresh v =
    subst (λ (q : List InboundMessage). Served fds q (handle_events evs (handle_event ev d)))
      (append_assoc queue (message_of fds ev) (messages_of fds evs))
      (handle_events-Served fds (queue ++ message_of fds ev) evs (handle_event ev d) fresh.1
        (handle_event-Served fds queue ev d fresh.0 v))

run-Served :
    (fds : List ℕ) (queue : List InboundMessage) (rs : List (Option (List Event))) (d : Device)
    → All (AreFresh fds) rs
    → Served fds queue d
    → Served fds (queue ++ all_messages fds rs) (run rs d)
unfolding receive_msg
run-Served fds queue [] d fresh v = rw append-nil v
run-Served fds queue (none ∷ rs) d fresh v = run-Served fds queue rs d fresh.1 v
run-Served fds queue (some evs ∷ rs) d fresh v =
    subst (λ (q : List InboundMessage). Served fds q (run rs (handle_events evs d)))
      (append_assoc queue (messages_of fds evs) (all_messages fds rs))
      (run-Served fds (queue ++ messages_of fds evs) rs (handle_events evs d) fresh.1
        (handle_events-Served fds queue evs d fresh.0 v))

listen_on-Served :
    (s : Sockets) (added : ℕ → ℕ) (count port : ℕ) (d d' : Device)
    → Served d.fds [] d
    → listen_on s added count port d ≡ up d'
    → Served d'.fds [] d'
unfolding listen_on
listen_on-Served s added zero port d d' v e =
    let same : d ≡ d' = cc in subst (λ (x : Device). Served x.fds [] x) same v
listen_on-Served s added (suc count) port d d' v e =
    elim (Option-cases (setup_listening_socket s port)) [
      | inl failed ↦ absurd (ground arith)
      | inr (fd, made) ↦ elim (Bool-cases (is_negative (added port))) [
        | inl failed ↦ absurd (ground arith)
        | inr good ↦
            listen_on-Served s added count (port + 1)
              (record (call (epoll_add fd) d) { fds = fd ∷ d.fds }) d'
              (record {
                same = refl;
                listening = λ fd'.
                    ground (
                      arith,
                      v.listening fd',
                      watches-append fd' false d.calls (epoll_add fd ∷ []),
                    );
                enqueued = v.enqueued;
              })
              (rw (made, listen_on, good) at e)
      ]
    ]

-- From an epoll device that the constructor set up, after any rounds of receive_msg in which
-- accept4 gives no client the descriptor of a listening socket, the listening sockets are the same,
-- each of them is watched and was not closed, and the queue holds, in order, a message for each
-- event on another descriptor that was ready and whose read gave bytes.
pub epoll-Served :
    (s : Sockets) (added : ℕ → ℕ) (epfd first_port : ℕ) (d : Device)
    → new s added epfd first_port ≡ up d
    → (rs : List (Option (List Event))) → All (AreFresh d.fds) rs
    → Served d.fds (all_messages d.fds rs) (run rs d)
unfolding new
epoll-Served s added epfd first_port d e rs fresh = elim (Bool-cases (is_negative epfd)) [
  | inl failed ↦ absurd (ground arith)
  | inr good ↦ run-Served d.fds [] rs d fresh (
      listen_on-Served s added 10 first_port (record { fds = []; queue = []; calls = [] }) d
        (record { same = refl; listening = λ fd. inl refl; enqueued = refl }) (rw (good, new) at e))
]

-- ===== src/Network/Uring/Receive.antt =====
-- The first section of `receive_msg` keeps the invariant, whatever completed.
use low_level_programming.Shared.{
  ℕ, suc, ◌+◌, ◌≤◌, ◌≡◌, refl, sym, ap, ◌∙◌, inl, inr, true, false, none, some, List, [], ◌∷◌, ◌++◌,
  append-nil, append_assoc, ◌==◌, ltb, update, length, arith, Bool-cases, tests, update_self,
}
use low_level_programming.Messages.Bytes.{Buffer, load_bytes, store_bytes}
use low_level_programming.Network.Sockets.{is_negative, in_size, max_req_size}
use low_level_programming.Network.Uring.{EventType, accept, read, write, Owned, Call, cqe_seen}
use low_level_programming.Network.Uring.Completion.{
  Completion, receive_locked, drop, on_success, on_read, on_write,
}
use low_level_programming.Network.Uring.Buffers.{
  load_bytes-drop, length-drop, length-store_bytes, store_bytes_none, drop_all,
}
use low_level_programming.Network.Uring.Lists.{
  count_if, one_if, accepts_on, reads_from, is_at, is_number, Taken, take_flight-Taken,
}
use low_level_programming.Network.Uring.World.{World, IsCompletion, note, place}
use low_level_programming.Network.Uring.Invariant.{Fits, IsWorld, Returns, owned}
use low_level_programming.Network.Uring.Leave.{
  fresh_same, rest_pointers, rest_landed, leave-IsWorld, settled-IsWorld, partial-IsWorld,
}

module _ (w : World) (v : IsWorld w) (c : Completion) (rest : List Owned) (stack : Buffer)
    (idle : w.reading ≡ none) (p client_fd listen_fd : ℕ) (buf : Buffer) where
  accept-IsWorld :
      IsCompletion w c (owned accept p client_fd listen_fd buf) rest
      → Returns
          (λ r. IsWorld (place r (note c (owned accept p client_fd listen_fd buf) w)))
          (receive_locked stack (some c) w.device)
  unfolding receive_locked note place
  accept-IsWorld k =
      let t : Taken c.user_data w.device.inflight_requests (owned accept p client_fd listen_fd buf)
          rest =
        take_flight-Taken c.user_data w.device.inflight_requests
          (owned accept p client_fd listen_fd buf) rest k.taken_out in
      let o = owned accept p client_fd listen_fd buf in
      let at : (q : ℕ)
          → one_if (p == q) + count_if (is_at q) rest ≤ one_if (ltb q w.device.allocated) =
        rest_pointers w v c rest o t in
      let landed = rest_landed w v c rest o t in
      let fresh = fresh_same w v c rest o t in
      let same : w.whole p ≡ w.taken p = (t.all (Fits w) v.fits).0 in
      elim (Bool-cases (is_negative c.res)) [
        | inl negative ↦
            rw (k.taken_out, receive_locked, negative)
              (record {
                accepts = λ fd. omega (arith, v.accepts fd, t.count (accepts_on fd));
                reads = λ fd. omega (arith, v.reads fd, t.count (reads_from fd));
                once = v.once;
                pointers = λ q. ground (arith, at q, at w.device.allocated);
                fits = (fresh w.device.allocated (omega arith), (t.all (Fits w) v.fits).1);
                unused = λ q later. v.unused q (omega arith);
                landed = λ q gone. landed same q (omega arith);
              })
        | inr good ↦
            rw (k.taken_out, receive_locked, good)
              (record {
                accepts = λ fd. omega (arith, v.accepts fd, t.count (accepts_on fd));
                reads = λ fd. ground (arith, v.reads fd, t.count (reads_from fd), idle);
                once = λ fd. ground (arith, v.once fd, k.fresh refl good);
                pointers =
                    λ q. ground (arith, at q, at w.device.allocated, at (suc w.device.allocated));
                fits = (
                  (fresh (suc w.device.allocated) (omega arith), refl),
                  (fresh w.device.allocated (omega arith), (t.all (Fits w) v.fits).1),
                );
                unused = λ q later. v.unused q (omega arith);
                landed = λ q gone. landed same q (omega arith);
              })
      ]

  read-IsWorld :
      IsCompletion w c (owned read p client_fd listen_fd buf) rest
      → Returns
          (λ r. IsWorld (place r (note c (owned read p client_fd listen_fd buf) w)))
          (receive_locked stack (some c) w.device)
  unfolding receive_locked note place
  read-IsWorld k =
      let o = owned read p client_fd listen_fd buf in
      let t : Taken c.user_data w.device.inflight_requests o rest =
        take_flight-Taken c.user_data w.device.inflight_requests o rest k.taken_out in
      let same : w.whole p ≡ w.taken p = (t.all (Fits w) v.fits).0.0 in
      let size : length buf ≡ max_req_size = (t.all (Fits w) v.fits).0.1 in
      let leave = leave-IsWorld w v c rest o t (w.device.calls ++ (cqe_seen ∷ [])) in
      let reads : (fd : ℕ)
          → one_if (client_fd == fd) + count_if (reads_from fd) rest
            ≤ count_if (is_number fd) w.connections =
        λ fd. omega (arith, v.reads fd, t.count (reads_from fd)) in
      elim (Bool-cases (is_negative c.res)) [
        | inl negative ↦
            rw (k.taken_out, receive_locked, negative)
              (leave none refl same (λ fd. omega (arith, reads fd)))
        | inr good ↦ elim (Bool-cases (c.res == 0)) [
          | inl closed ↦
              rw (k.taken_out, receive_locked, good, on_success, closed)
                (leave none refl same (λ fd. omega (arith, reads fd)))
          | inr some_bytes ↦
              let inside : ltb (length (store_bytes buf 0 c.received)) c.res ≡ false =
                ground (arith, k.received refl good, length-store_bytes buf 0 c.received, size) in
              let fits : ltb in_size c.res ≡ false = ground (arith, k.received refl good) in
              rw (k.taken_out, receive_locked, good, on_success, some_bytes, on_read, inside, fits)
                (leave (some (_, client_fd)) refl same (λ fd. omega (arith, reads fd)))
        ]
      ]

  write-IsWorld :
      IsCompletion w c (owned write p client_fd listen_fd buf) rest
      → Returns
          (λ r. IsWorld (place r (note c (owned write p client_fd listen_fd buf) w)))
          (receive_locked stack (some c) w.device)
  unfolding receive_locked note place
  write-IsWorld k =
      let o = owned write p client_fd listen_fd buf in
      let t : Taken c.user_data w.device.inflight_requests o rest =
        take_flight-Taken c.user_data w.device.inflight_requests o rest k.taken_out in
      let at : (q : ℕ)
          → one_if (p == q) + count_if (is_at q) rest ≤ one_if (ltb q w.device.allocated) =
        rest_pointers w v c rest o t in
      let (same, some_left, kept) = (t.all (Fits w) v.fits).0 in
      let gone : count_if (is_at p) rest ≡ 0 = ground (arith, at p) in
      let buf_kept : store_bytes buf 0 c.received ≡ buf =
        store_bytes_none buf c.received (k.nothing λ e. cc) in
      let lost_else : (q : ℕ) → (q == p) ≡ false → update w.lost p true q ≡ w.lost q =
        λ q apart. ground arith in
      let failed = λ (calls : List Call).
        settled-IsWorld w v c rest o t refl calls w.taken (update w.lost p true) (λ q apart. refl)
          lost_else (inl (update_self w.lost p true)) in
      let bytes = load_bytes buf 0 c.res in
      let taken' = update w.taken p (w.taken p ++ bytes) in
      let taken_else : (q : ℕ) → (q == p) ≡ false → taken' q ≡ w.taken q =
        λ q apart. ground arith in
      let now : taken' p ≡ w.taken p ++ bytes = update_self w.taken p (w.taken p ++ bytes) in
      elim (Bool-cases (is_negative c.res)) [
        | inl negative ↦ rw (k.taken_out, receive_locked, negative) (failed _)
        | inr good ↦
            let split : bytes ++ drop c.res buf ≡ buf =
              load_bytes-drop c.res buf (k.sent refl good) in
            let parts : w.whole p ≡ (w.taken p ++ bytes) ++ drop c.res buf =
              same
              ∙ sym (ap (λ bs. w.taken p ++ bs) split)
              ∙ sym (append_assoc (w.taken p) bytes (drop c.res buf)) in
            elim (Bool-cases (c.res == 0)) [
              | inl closed ↦
                  rw (k.taken_out, receive_locked, good, on_success, closed, on_write) (failed _)
              | inr some_bytes ↦ elim (Bool-cases (ltb c.res (length buf))) [
                | inl partial ↦
                    rw
                      (
                        k.taken_out, receive_locked, good, on_success, some_bytes, on_write,
                        buf_kept, partial,
                      )
                      (partial-IsWorld w v c rest o t refl _ taken' w.lost taken_else
                        (λ q apart. refl) client_fd listen_fd (drop c.res buf) (rw now parts)
                        (ground (arith, length-drop c.res buf, k.sent refl good)) kept)
                | inr full ↦
                    rw
                      (
                        k.taken_out, receive_locked, good, on_success, some_bytes, on_write,
                        buf_kept, full,
                      )
                      (settled-IsWorld w v c rest o t refl _ taken' w.lost taken_else
                        (λ q apart. refl)
                        (inr
                          (rw (now, parts, drop_all c.res buf (omega (tests, full)), append-nil))))
              ]
            ]
      ]

  by_event :
      (event : EventType)
      → IsCompletion w c (owned event p client_fd listen_fd buf) rest
      → Returns
          (λ r. IsWorld (place r (note c (owned event p client_fd listen_fd buf) w)))
          (receive_locked stack (some c) w.device)
  by_event accept k = accept-IsWorld k
  by_event read k = read-IsWorld k
  by_event write k = write-IsWorld k

-- A completion is handled without a fault.
pub receive_locked-IsWorld :
    (w : World) (c : Completion) (o : Owned) (rest : List Owned) (stack : Buffer)
    → IsWorld w
    → w.reading ≡ none
    → IsCompletion w c o rest
    → Returns (λ r. IsWorld (place r (note c o w))) (receive_locked stack (some c) w.device)
receive_locked-IsWorld w c o rest stack v idle k =
    by_event w v c rest stack idle o.pointer o.request.client_fd o.request.listen_fd o.request.buf
      o.request.event k

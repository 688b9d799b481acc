-- ===== src/Network/Uring/Asked.antt =====
-- What the calls made so far ask of the kernel: the last entry that was claimed with a pointer, and
-- whether all entries have been submitted.
use low_level_programming.Shared.{
  ℕ, ◌≡◌, refl, ◌∙◌, Bool, true, false, Option, none, some, List, [], ◌∷◌, ◌++◌, ◌==◌,
  if◌then◌else◌, arith, All,
}
use low_level_programming.Messages.Bytes.{Buffer}
use low_level_programming.Network.Uring.{
  EventType, accept, read, write, Owned, Device, Call, prep_accept, prep_recv, prep_send,
  submit_all, cqe_seen,
}
use low_level_programming.Network.Uring.Lists.{count_if, is_at, All-others}
use low_level_programming.Network.Sockets.{max_req_size}

-- The call that a request in flight stands for, by its kind.
abbrev pub ask : EventType → (p client_fd listen_fd : ℕ) → Buffer → Call
ask accept p client_fd listen_fd buf = prep_accept p listen_fd
ask read p client_fd listen_fd buf = prep_recv p client_fd max_req_size
ask write p client_fd listen_fd buf = prep_send p client_fd buf

abbrev pub ask_of : Owned → Call
ask_of o = ask o.request.event o.pointer o.request.client_fd o.request.listen_fd o.request.buf

-- whether a call claims an entry for the pointer
abbrev pub claims : ℕ → Call → Bool
claims p (prep_accept q listen_fd) = q == p
claims p (prep_recv q client_fd len) = q == p
claims p (prep_send q client_fd bytes) = q == p
claims p submit_all = false
claims p cqe_seen = false

abbrev pub last_ask : ℕ → Option Call → List Call → Option Call
last_ask p last [] = last
last_ask p last (c ∷ cs) = last_ask p (if claims p c then some c else last) cs

-- whether all entries are submitted after the calls, if they were before
abbrev pub submitted : Bool → List Call → Bool
submitted b [] = b
submitted b (prep_accept q listen_fd ∷ cs) = submitted false cs
submitted b (prep_recv q client_fd len ∷ cs) = submitted false cs
submitted b (prep_send q client_fd bytes ∷ cs) = submitted false cs
submitted b (submit_all ∷ cs) = submitted true cs
submitted b (cqe_seen ∷ cs) = submitted b cs

abbrev pub Asked : List Call → Owned → Type 0
Asked calls o = last_ask o.pointer none calls ≡ some (ask_of o)

pub record Asks (d : Device) : Type 0 where
  pub asked : All (Asked d.calls) d.inflight_requests
  pub all_submitted : submitted true d.calls ≡ true

last_ask-append :
    (p : ℕ) (last : Option Call) (xs ys : List Call)
    → last_ask p last (xs ++ ys) ≡ last_ask p (last_ask p last xs) ys
last_ask-append p last [] ys = refl
last_ask-append p last (x ∷ xs) ys = last_ask-append p (if claims p x then some x else last) xs ys

submitted-append :
    (b : Bool) (xs ys : List Call) → submitted b (xs ++ ys) ≡ submitted (submitted b xs) ys
submitted-append b [] ys = refl
submitted-append b (prep_accept q listen_fd ∷ xs) ys = submitted-append false xs ys
submitted-append b (prep_recv q client_fd len ∷ xs) ys = submitted-append false xs ys
submitted-append b (prep_send q client_fd bytes ∷ xs) ys = submitted-append false xs ys
submitted-append b (submit_all ∷ xs) ys = submitted-append true xs ys
submitted-append b (cqe_seen ∷ xs) ys = submitted-append b xs ys

pub submitted_now : (calls : List Call) → submitted true (calls ++ (submit_all ∷ [])) ≡ true
submitted_now calls = submitted-append true calls (submit_all ∷ [])

pub submitted_seen :
    (calls : List Call)
    → submitted true calls ≡ true
    → submitted true (calls ++ (cqe_seen ∷ [])) ≡ true
submitted_seen calls h = submitted-append true calls (cqe_seen ∷ []) ∙ h

-- A call that claims no entry changes nothing.
last_ask-other :
    (p : ℕ) (calls : List Call) (c : Call)
    → claims p c ≡ false
    → last_ask p none (calls ++ (c ∷ [])) ≡ last_ask p none calls
last_ask-other p calls c other = last_ask-append p none calls (c ∷ []) ∙ rw other refl

pub still-Asked :
    (calls : List Call) (c : Call) (os : List Owned)
    → ((p : ℕ) → claims p c ≡ false)
    → All (Asked calls) os
    → All (Asked (calls ++ (c ∷ []))) os
still-Asked calls c [] none_claimed h = tt
still-Asked calls c (o ∷ os) none_claimed h = (
  last_ask-other o.pointer calls c (none_claimed o.pointer) ∙ h.0,
  still-Asked calls c os none_claimed h.1,
)

claims-ask :
    (event : EventType) (p client_fd listen_fd q : ℕ) (buf : Buffer)
    → claims q (ask event p client_fd listen_fd buf) ≡ (p == q)
claims-ask accept p client_fd listen_fd q buf = refl
claims-ask read p client_fd listen_fd q buf = refl
claims-ask write p client_fd listen_fd q buf = refl

-- A request goes in flight under a pointer that no other has.
pub claim-Asked :
    (calls : List Call) (o : Owned) (os : List Owned)
    → count_if (is_at o.pointer) os ≡ 0
    → All (Asked calls) os
    → All (Asked (calls ++ (ask_of o ∷ []))) (o ∷ os)
claim-Asked calls o os free h =
    let claimed = λ (q : ℕ).
      claims-ask o.request.event o.pointer o.request.client_fd o.request.listen_fd q
        o.request.buf in
    let self : claims o.pointer (ask_of o) ≡ true = claimed o.pointer ∙ ground arith in
    (
      last_ask-append o.pointer none calls (ask_of o ∷ []) ∙ rw self refl,
      All-others (Asked calls) (Asked (calls ++ (ask_of o ∷ []))) o.pointer os
          (λ other apart was.
            last_ask-other other.pointer calls (ask_of o)
              (claimed other.pointer ∙ ground (arith, apart))
            ∙ was)
          free h,
    )

-- ===== src/HttpServer/Accepting.antt =====
-- webserver/server_http.hpp, `Server<HTTP>::accept`, and websocket/server_ws.hpp,
-- `SocketServer<WS>::accept`: the connections that a server takes. The two loops differ in what a
-- failure tells. A connection is named by a number, which `create_connection` chooses afresh.
use juce_simpleweb.Prelude.{
  ℕ, zero, suc, ◌+◌, ◌<◌, ◌≡◌, refl, sym, ap, ◌∙◌, Bool, true, false, Option, none, some, List, [],
  ◌∷◌, ◌++◌, ◌==◌, append-nil, append_assoc, arith, if◌then◌else◌, length, All,
}

-- The error codes that an accept can have.
pub data AcceptError : Type 0 where
  operation_aborted : AcceptError
  refused : ℕ → AcceptError

-- How many connections were created, those whose accept is under way, those that `read` was called
-- with, and the errors that on_error was told.
pub record Acceptor : Type 0 where
  pub created : ℕ
  pub under_way : List ℕ
  pub reads : List ℕ
  pub told : List AcceptError

-- A fresh connection, which the handler of its accept captures.
unfoldable pub accept : Acceptor → Acceptor
accept a = record a { created = a.created + 1; under_way = a.under_way ++ a.created ∷ [] }

abbrev pub is_aborted : Option AcceptError → Bool
is_aborted (some operation_aborted) = true
is_aborted (some (refused n)) = false
is_aborted none = false

-- The accept of a connection is under way no more.
unfoldable pub complete : ℕ → List ℕ → List ℕ
complete connection [] = []
complete connection (h ∷ under_way) =
    if h == connection then under_way else h ∷ complete connection under_way

-- `read` of a session of the connection.
abbrev pub read : ℕ → Acceptor → Acceptor
read connection a = record a { reads = a.reads ++ connection ∷ [] }

-- The handler of the accept of a connection: whether on_error is set, whether the scope's lock was
-- obtained, the error code, and the connection that it has captured.
unfoldable pub on_accepted : Bool → Bool → Option AcceptError → ℕ → Acceptor → Acceptor
unfolding accept complete
on_accepted on_error lock ec connection a =
    let a' = record a { under_way = complete connection a.under_way } in
    if lock
    then (let next = if is_aborted ec then a' else accept a' in
        elim ec [
          | none ↦ read connection next
          | some e ↦ if on_error then record next { told = next.told ++ e ∷ [] } else next
        ])
    else a'

-- The same of the socket server, which tells no error.
unfoldable pub on_socket_accepted : Bool → Option AcceptError → ℕ → Acceptor → Acceptor
unfolding on_accepted
on_socket_accepted lock ec connection a = on_accepted false lock ec connection a

-- The completion of the accept that is under way, with its lock and its error code.
unfoldable pub completion : Bool → Bool × Option AcceptError → Acceptor → Acceptor
unfolding on_accepted
completion on_error (lock, ec) a = elim a.under_way [
  | [] ↦ a
  | connection ∷ _ ↦ on_accepted on_error lock ec connection a
]

-- Accepts that complete one after another.
unfoldable pub completions : Bool → List (Bool × Option AcceptError) → Acceptor → Acceptor
unfolding completion
completions on_error [] a = a
completions on_error (d ∷ rest) a = completions on_error rest (completion on_error d a)

-- A server whose first accept was started.
abbrev pub started : Acceptor
started = record { created = 1; under_way = 0 ∷ []; reads = []; told = [] }

-- Whether the accept of this number succeeded.
abbrev pub succeeded : List (Bool × Option AcceptError) → ℕ → Bool
succeeded [] k = false
succeeded ((lock, none) ∷ rest) zero = true
succeeded ((lock, some e) ∷ rest) zero = false
succeeded (d ∷ rest) (suc k) = succeeded rest k

abbrev pub errors : Bool → List (Bool × Option AcceptError) → List AcceptError
errors on_error [] = []
errors on_error ((lock, none) ∷ rest) = errors on_error rest
errors on_error ((lock, some e) ∷ rest) = (if on_error then e ∷ [] else []) ++ errors on_error rest

-- How often a connection is in a list.
abbrev pub times : ℕ → List ℕ → ℕ
times k [] = 0
times k (h ∷ held) = (if h == k then 1 else 0) + times k held

-- The scope is not stopped, and the io_service neither.
abbrev pub Runs : Bool × Option AcceptError → Type 0
Runs (lock, ec) = (lock ≡ true) × (is_aborted ec ≡ false)

-- Between two completions: one accept is under way, that of the newest connection.
record Waits (n : ℕ) (a : Acceptor) : Type 0 where
  made : a.created ≡ suc n
  waiting : a.under_way ≡ n ∷ []

abbrev taken : ℕ → Bool × Option AcceptError → List ℕ
taken n (lock, none) = n ∷ []
taken n (lock, some e) = []

-- One completion.
record Completed (on_error : Bool) (n : ℕ) (d : Bool × Option AcceptError) (a b : Acceptor)
    : Type 0 where
  waits : Waits (suc n) b
  read_from : b.reads ≡ a.reads ++ taken n d
  told_of : b.told ≡ a.told ++ errors on_error (d ∷ [])

complete_only : (n : ℕ) → complete n (n ∷ []) ≡ []
unfolding complete
complete_only n = ground arith

-- An accept that succeeded, and one that failed, with its accept under way.
on_accepted-Completed :
    (on_error lock : Bool) (ec : Option AcceptError) (n : ℕ) (reads : List ℕ)
    (told : List AcceptError)
    → Runs (lock, ec)
    → let a : Acceptor = record {
      created = suc n;
      under_way = n ∷ [];
      reads = reads;
      told = told;
    } in
      Completed on_error n (lock, ec) a (on_accepted on_error lock ec n a)
unfolding on_accepted accept
on_accepted-Completed on_error true none n reads told r = record {
  waits = record { made = omega arith; waiting = ap (λ l. l ++ suc n ∷ []) (complete_only n) };
  read_from = refl;
  told_of = sym (append-nil told);
}
on_accepted-Completed on_error true (some operation_aborted) n reads told r = cc (r.1)
on_accepted-Completed true true (some (refused m)) n reads told r = record {
  waits = record { made = omega arith; waiting = ap (λ l. l ++ suc n ∷ []) (complete_only n) };
  read_from = sym (append-nil reads);
  told_of = refl;
}
on_accepted-Completed false true (some (refused m)) n reads told r = record {
  waits = record { made = omega arith; waiting = ap (λ l. l ++ suc n ∷ []) (complete_only n) };
  read_from = sym (append-nil reads);
  told_of = sym (append-nil told);
}
on_accepted-Completed on_error false ec n reads told r = cc (r.0)

completion-Completed :
    (on_error : Bool) (d : Bool × Option AcceptError) (n : ℕ) (a : Acceptor)
    → Waits n a
    → Runs d
    → Completed on_error n d a (completion on_error d a)
unfolding completion
completion-Completed on_error (lock, ec) n a w r =
    let same : a ≡ record { created = suc n; under_way = n ∷ []; reads = a.reads; told = a.told } =
      λ i. record { created = w.made i; under_way = w.waiting i; reads = a.reads; told = a.told } in
    rw same (on_accepted-Completed on_error lock ec n a.reads a.told r)

-- The connections, from this one on, that are read from.
abbrev taken_from : ℕ → List (Bool × Option AcceptError) → List ℕ
taken_from n [] = []
taken_from n (d ∷ rest) = taken n d ++ taken_from (suc n) rest

times-taken_below :
    (k n : ℕ) (done : List (Bool × Option AcceptError)) → k < n → times k (taken_from n done) ≡ 0
times-taken_below k n [] h = refl
times-taken_below k n ((lock, none) ∷ rest) h =
    ground (arith, times-taken_below k (suc n) rest (omega arith))
times-taken_below k n ((lock, some e) ∷ rest) h = times-taken_below k (suc n) rest (omega arith)

times-taken :
    (m k n : ℕ) (done : List (Bool × Option AcceptError))
    → m ≡ n + k
    → times m (taken_from n done) ≡ (if succeeded done k then 1 else 0)
times-taken m k n [] e = refl
times-taken m zero n ((lock, none) ∷ rest) e =
    ground (arith, times-taken_below m (suc n) rest (omega arith))
times-taken m zero n ((lock, some x) ∷ rest) e = times-taken_below m (suc n) rest (omega arith)
times-taken m (suc k) n ((lock, none) ∷ rest) e =
    ground (arith, times-taken m k (suc n) rest (omega arith))
times-taken m (suc k) n ((lock, some x) ∷ rest) e = times-taken m k (suc n) rest (omega arith)

errors-cons :
    (on_error : Bool) (d : Bool × Option AcceptError) (rest : List (Bool × Option AcceptError))
    → errors on_error (d ∷ rest) ≡ errors on_error (d ∷ []) ++ errors on_error rest
errors-cons on_error (lock, none) rest = refl
errors-cons true (lock, some e) rest = refl
errors-cons false (lock, some e) rest = refl

completions_lem :
    (on_error : Bool) (done : List (Bool × Option AcceptError)) (n : ℕ) (a : Acceptor)
    → Waits n a
    → All Runs done
    → ((completions on_error done a).under_way ≡ (n + length done) ∷ [])
      × ((completions on_error done a).reads ≡ a.reads ++ taken_from n done)
      × ((completions on_error done a).told ≡ a.told ++ errors on_error done)
unfolding completions
completions_lem on_error [] n a w r =
    (w.waiting ∙ ap (λ m. m ∷ []) (omega arith), sym (append-nil a.reads), sym (append-nil a.told))
completions_lem on_error (d ∷ rest) n a w (r, rs) =
    let c = completion-Completed on_error d n a w r in
    let (one, read_from, told) =
      completions_lem on_error rest (suc n) (completion on_error d a) c.waits rs in
    (
      one ∙ ap (λ m. m ∷ []) (omega arith),
      read_from
          ∙ ap (λ l. l ++ taken_from (suc n) rest) c.read_from
          ∙ append_assoc a.reads (taken n d) (taken_from (suc n) rest),
      told
          ∙ ap (λ l. l ++ errors on_error rest) c.told_of
          ∙ append_assoc a.told (errors on_error (d ∷ [])) (errors on_error rest)
          ∙ ap (◌++◌ a.told) (sym (errors-cons on_error d rest)),
    )

-- A server whose first accept was started, with the connection 0, while neither the scope nor the
-- io_service is stopped: whatever accepts complete, with success or failure in whatever order,
-- exactly one is then under way, that of the connection whose number is how many have completed. So
-- the connection k is that of the k-th accept, counted from 0; it is read from exactly once if that
-- accept succeeded, and never if it failed or has not completed. on_error was told every failure in
-- order if it is set, and nothing otherwise.
pub completions-accepted :
    (on_error : Bool) (done : List (Bool × Option AcceptError))
    → All Runs done
    → ((completions on_error done started).under_way ≡ length done ∷ [])
      × ((k : ℕ)
          → times k (completions on_error done started).reads ≡ (if succeeded done k then 1 else 0))
      × ((completions on_error done started).told ≡ errors on_error done)
completions-accepted on_error done r =
    let (one, read_from, told) =
      completions_lem on_error done 0 started (record { made = refl; waiting = refl }) r in
    (
      one ∙ ap (λ m. m ∷ []) (omega arith),
      λ k. ap (times k) read_from ∙ times-taken k k 0 done (omega arith),
      told,
    )

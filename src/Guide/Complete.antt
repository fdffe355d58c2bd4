-- ===== src/Guide/Complete.antt =====
-- The transport that the commands of the wizard of src/pymod/_guide.py name.
use pymod.Prelude.{
  ◌≡◌, ◌≢◌, refl, sym, ap, ◌∙◌, arith, Bool, true, false, if◌then◌else◌, inl, inr, Option, none,
  some, Option-cases, List, [], ◌∷◌,
}
use mathlib.Core.Path.{subst}
use pymod.Prelude.Int.{ℤ}
use pymod.Text.{Text}
use pymod.Errors.{Result}
use pymod.Client.{Backoff, RetryPolicy}
use pymod.Client.Factory.{Parity}
use pymod.Cli.{system_exit, TransportArgs, CallArgs}
use pymod.Cli.Run.{make_client, Command, read_command, write_command, scan_command}
use pymod.Guide.{Ask, answer, ◌>>=◌, ask}
use pymod.Guide.Choices.{
  Operation, op_read, op_write, op_scan, TransportKind, kind_tcp, kind_rtu, kind_rtu_over_tcp,
}
use pymod.Guide.Wizard.{
  localhost, tcp_args, serial_args, ask_transport_of, ask_transport, ask_read, ask_write, ask_scan,
  ask_operation, build_namespace,
}
use pymod.Guide.Laws.{IsFilled, ask-IsFilled}

-- The value of an answer with the lines after it.
abbrev Gives {ℓ} : {A : Type ℓ} → Ask A → List Text → A → List Text → Type ℓ
Gives {A = A} m lines a rest = ◌≡◌ {A = Option (A × List Text)} (m lines) (some (a, rest))

-- Every answer of a prompt has a property.
abbrev Yields {ℓ κ} : {A : Type ℓ} → Ask A → (A → Type κ) → Type (ℓ ⊔ κ)
Yields {A = A} m P = (lines : List Text) (a : A) (rest : List Text) → Gives m lines a rest → P a

bind_step {κ ℓ} :
    {X : Type κ} {Y : Type ℓ} (m : Ask X) (k : X → Ask Y) (lines mid : List Text) (x : X)
    → Gives m lines x mid
    → (m >>= k) lines ≡ k x mid
unfolding ◌>>=◌
bind_step m k lines mid x e = rw (◌>>=◌, e) refl

bind_none {κ ℓ} :
    {X : Type κ} {Y : Type ℓ} (m : Ask X) (k : X → Ask Y) (lines : List Text)
    → m lines ≡ none
    → (m >>= k) lines ≡ none
unfolding ◌>>=◌
bind_none m k lines e = rw (◌>>=◌, e) refl

bind_yields {κ ℓ μ ν} :
    {X : Type κ} {Y : Type ℓ} (m : Ask X) (k : X → Ask Y) (P : X → Type μ) (Q : Y → Type ν)
    → Yields m P
    → ((x : X) → P x → Yields (k x) Q)
    → Yields (m >>= k) Q
bind_yields m k P Q hm hk lines y rest h = elim (Option-cases (m lines)) [
  | inl n ↦ ground (arith, bind_none m k lines n)
  | inr ((x, mid), e) ↦ hk x (hm lines x mid e) mid y rest (sym (bind_step m k lines mid x e) ∙ h)
]

answer_yields {ℓ κ} : {A : Type ℓ} (a : A) (P : A → Type κ) → P a → Yields (answer a) P
answer_yields a P p lines b rest h = subst P (ap (λ o. elim o [ none ↦ a | some q ↦ q.0 ]) h) p

-- Nothing is known of an answer.
abbrev Anything {ℓ} : {A : Type ℓ} → A → Type 0
Anything a = Unit

-- A transport that `_make_client` accepts, as it is independent of the call's arguments.
abbrev pub Complete : {F : Type 0} → TransportArgs F → Type 1
Complete {F} transport =
    (times : Backoff) (defaults : RetryPolicy times) (three_s : F) (call : CallArgs F)
    → make_client times F defaults three_s transport call ≢ system_exit

module _ {F : Type 0} (to_float : Text → Result F) (half : Text) where
  tcp_args-Complete :
      (host : Text) (port : ℤ) (framed : Bool)
      → IsFilled host
      → Complete (tcp_args to_float half host port framed)
  unfolding make_client tcp_args
  tcp_args-Complete [] port framed f times defaults three_s call h = ground arith
  tcp_args-Complete (c ∷ s) port true f times defaults three_s call h = ground arith
  tcp_args-Complete (c ∷ s) port false f times defaults three_s call h = ground arith

  serial_args-Complete :
      (path : Text) (baudrate : ℤ) (parity : Parity)
      → IsFilled path
      → Complete (serial_args to_float half path baudrate parity)
  unfolding make_client serial_args
  serial_args-Complete [] baudrate parity f times defaults three_s call h = ground arith
  serial_args-Complete (c ∷ s) baudrate parity f times defaults three_s call h = ground arith

  ask_host : Yields (ask (some localhost)) IsFilled
  ask_host lines host rest h =
      ask-IsFilled (some localhost) host lines rest
        (λ d e. subst IsFilled (ap (λ o. elim o [ none ↦ localhost | some t ↦ t ]) e) refl) h

  ask_path : Yields (ask none) IsFilled
  ask_path lines path rest h = ask-IsFilled none path lines rest (λ d e. ground arith) h

  ask_transport_of-Complete :
      (kind : TransportKind) → Yields (ask_transport_of to_float half kind) Complete
  unfolding ask_transport_of
  ask_transport_of-Complete kind_tcp = bind_yields _ _ IsFilled Complete ask_host λ host f.
      bind_yields _ _ Anything Complete (λ l a r h. tt)
        λ port u. answer_yields _ Complete (tcp_args-Complete host port false f)
  ask_transport_of-Complete kind_rtu_over_tcp = bind_yields _ _ IsFilled Complete ask_host λ host f.
      bind_yields _ _ Anything Complete (λ l a r h. tt)
        λ port u. answer_yields _ Complete (tcp_args-Complete host port true f)
  ask_transport_of-Complete kind_rtu = bind_yields _ _ IsFilled Complete ask_path λ path f.
      bind_yields _ _ Anything Complete (λ l a r h. tt)
        λ baudrate u.
          bind_yields _ _ Anything Complete (λ l a r h. tt)
            λ parity v. answer_yields _ Complete (serial_args-Complete path baudrate parity f)

-- A command whose transport `_make_client` accepts; `serve` has none.
abbrev pub CompleteCommand : {F : Type 0} → Command F → Type 1
CompleteCommand (read_command args) = Complete args.transport
CompleteCommand (write_command args) = Complete args.transport
CompleteCommand (scan_command args) = Complete args.transport
CompleteCommand Command.serve_command = Unit {1}

module _ {F : Type 0} (to_float : Text → Result F) (half : Text) where
  ask_transport-Complete : Yields (ask_transport to_float half) Complete
  unfolding ask_transport
  ask_transport-Complete =
      bind_yields _ _ Anything Complete (λ l a r h. tt)
        λ kind u. ask_transport_of-Complete to_float half kind

  ask_operation-Complete :
      (op : Operation) (transport : TransportArgs F) (call : CallArgs F)
      → Complete transport
      → Yields (ask_operation to_float half op transport call) CompleteCommand
  unfolding ask_operation ask_read ask_write ask_scan
  ask_operation-Complete op_read transport call t =
      bind_yields _ _ (λ a. Complete a.transport) CompleteCommand
        (bind_yields _ _ Anything _ (λ l a r h. tt)
          λ area u.
            bind_yields _ _ Anything _ (λ l a r h. tt)
              λ start v.
                bind_yields _ _ Anything _ (λ l a r h. tt)
                  λ shape w.
                    bind_yields _ _ Anything _ (λ l a r h. tt) λ json x. answer_yields _ _ t)
        λ args p. answer_yields _ CompleteCommand p
  ask_operation-Complete op_write transport call t =
      bind_yields _ _ (λ a. Complete a.transport) CompleteCommand
        (bind_yields _ _ Anything _ (λ l a r h. tt)
          λ area u.
            bind_yields _ _ Anything _ (λ l a r h. tt)
              λ start v.
                bind_yields _ _ Anything _ (λ l a r h. tt)
                  λ shape w.
                    bind_yields _ _ Anything _ (λ l a r h. tt) λ json x. answer_yields _ _ t)
        λ args p. answer_yields _ CompleteCommand p
  ask_operation-Complete op_scan transport call t =
      bind_yields _ _ (λ a. Complete a.transport) CompleteCommand
        (bind_yields _ _ Anything _ (λ l a r h. tt)
          λ start v. bind_yields _ _ Anything _ (λ l a r h. tt) λ json x. answer_yields _ _ t)
        λ args p. answer_yields _ CompleteCommand p

  namespace-Complete :
      Yields (build_namespace to_float half) (λ o. (c : Command F) → o ≡ some c → CompleteCommand c)
  unfolding build_namespace
  namespace-Complete =
      bind_yields _ _ Anything _ (λ l a r h. tt)
        λ op u. bind_yields _ _ Complete _ ask_transport-Complete λ transport t.
          bind_yields _ _ Anything _ (λ l a r h. tt)
            λ call v.
              bind_yields _ _ CompleteCommand _ (ask_operation-Complete op transport call t)
                λ command p.
                  bind_yields _ _ Anything _ (λ l a r h. tt)
                    λ execute w. answer_yields _ _ (chosen execute command p)
    where
      chosen :
          (execute : Bool) (command : Command F)
          → CompleteCommand command
          → (c : Command F) → (if execute then some command else none) ≡ some c
          → CompleteCommand c
      chosen true command p c e =
          subst CompleteCommand (ap (λ o. elim o [ none ↦ command | some d ↦ d ]) e) p
      chosen false command p c e = ground arith

  -- Every command that the wizard returns, whatever is typed, names a transport: the client of the
  -- command line can be made of it, so that no such command ends for want of `--host` or `--rtu`.
  pub build_namespace-Complete :
      (lines rest : List Text) (command : Command F)
      → build_namespace to_float half lines ≡ some (some command, rest)
      → CompleteCommand command
  build_namespace-Complete lines rest command h =
      namespace-Complete lines (some command) rest h command refl

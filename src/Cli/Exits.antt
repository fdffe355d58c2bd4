-- ===== src/Cli/Exits.antt =====
-- What the exit codes of `read` and `write` tell.
pub mod Finish
use pymod.Prelude.{
  ◌≡◌, refl, ◌∙◌, arith, Bool, true, false, Bool-cases, ◌⊎◌, inl, inr, [], ◌∷◌, if◌then◌else◌, sym,
}
use pymod.Text.{Text}
use pymod.Errors.{Exc, Result, ◌>>◌}
use pymod.Types.{ReadItem, ReadResult, WriteItem, WriteResult}
use pymod.Client.{Backoff, RetryPolicy}
use pymod.Client.Factory.{AsyncClient}
use pymod.Cli.{Cli, done, system_exit, raised, ReadArgs, WriteArgs}
use pymod.Cli.Items.{build_read_item, build_write_item}
use pymod.Cli.Display.{Exit, emit_read_result, emit_write_result}
use pymod.Cli.Run.{ClientCalls, make_client, finish, with_client, run_read, run_write}
use pymod.Cli.Exits.Finish.{Tells, finish-Tells}

pub Cli-cases {ℓ} :
    {A : Type ℓ} (m : Cli A)
    → ((a : A) × (m ≡ done a)) ⊎ ((m ≡ system_exit) ⊎ ((e : Exc) × (m ≡ raised e)))
Cli-cases (done a) = inl (a, refl)
Cli-cases system_exit = inr (inl refl)
Cli-cases (raised e) = inr (inr (e, refl))

emit_read_result-code :
    {F : Type 0} (str_float : F → Text) (json : Bool) (r : ReadResult F)
    → (emit_read_result str_float r json).code ≡ (if r.ok? then 0 else 1)
unfolding emit_read_result
emit_read_result-code str_float true r = elim (Bool-cases r.ok?) [
  | inl y ↦ rw y refl
  | inr n ↦ rw n refl
]
emit_read_result-code str_float false r = elim (Bool-cases r.ok?) [
  | inl y ↦ rw y refl
  | inr n ↦ rw n refl
]

emit_write_result-code :
    {F : Type 0} (json : Bool) (r : WriteResult F)
    → (emit_write_result r json).code ≡ (if r.ok? then 0 else 1)
unfolding emit_write_result
emit_write_result-code true r = elim (Bool-cases r.ok?) [ inl y ↦ rw y refl | inr n ↦ rw n refl ]
emit_write_result-code false r = elim (Bool-cases r.ok?) [ inl y ↦ rw y refl | inr n ↦ rw n refl ]

module _ (times : Backoff) (F : Type 0) (defaults : RetryPolicy times) (three_s : F)
    (to_float : Text → Result F) (str_float : F → Text)
    (calls : AsyncClient times F → ClientCalls F) where
  run_read-finish :
      (args : ReadArgs F) (item : ReadItem) (client : AsyncClient times F)
      → build_read_item args ≡ done item
      → make_client times F defaults three_s args.transport args.call ≡ done client
      → run_read times F defaults three_s to_float str_float calls args
        ≡ finish args.json
            (λ r. emit_read_result str_float r args.json)
            ((calls client).connect >> (calls client).read (item ∷ []))
  unfolding run_read with_client
  run_read-finish args item client x y = rw (run_read, x, with_client, y) refl

  run_write-finish :
      (args : WriteArgs F) (item : WriteItem F) (client : AsyncClient times F)
      → build_write_item to_float args ≡ done item
      → make_client times F defaults three_s args.transport args.call ≡ done client
      → run_write times F defaults three_s to_float str_float calls args
        ≡ finish args.json
            (λ r. emit_write_result r args.json)
            ((calls client).connect >> (calls client).write (item ∷ []))
  unfolding run_write with_client
  run_write-finish args item client x y = rw (run_write, x, with_client, y) refl

  -- When `read` returns, an item and a client were built of the arguments, and the exit code tells the
  -- outcome of the client's batch of this one item: 0 that its first result is a success, 2 that the
  -- call raised a ModbusConnectionError, 1 that the result is an error or that the call raised
  -- another ModbusError; there is no other code. An error of any kind in the result gives 1, so that
  -- 1 stands for more than the exception response that docs/cli.md names.
  pub run_read-Tells :
      (args : ReadArgs F) (exit : Exit F)
      → run_read times F defaults three_s to_float str_float calls args ≡ done exit
      → (item : ReadItem) × (client : AsyncClient times F) × (build_read_item args ≡ done item)
        × (make_client times F defaults three_s args.transport args.call ≡ done client)
        × Tells
            (λ (r : ReadResult F). r.ok?)
            ((calls client).connect >> (calls client).read (item ∷ []))
            exit.code
  unfolding run_read with_client
  run_read-Tells args exit h = elim (Cli-cases (build_read_item args)) [
    | inr (inl x) ↦ ground (arith, x)
    | inr (inr (e, x)) ↦ ground (arith, x)
    | inl (item, x) ↦
        elim (Cli-cases (make_client times F defaults three_s args.transport args.call)) [
          | inr (inl y) ↦ ground (arith, x, y)
          | inr (inr (e, y)) ↦ ground (arith, x, y)
          | inl (client, y) ↦ (
            item,
            client,
            x,
            y,
            finish-Tells (λ r. r.ok?) args.json (λ r. emit_read_result str_float r args.json)
                ((calls client).connect >> (calls client).read (item ∷ [])) exit
                (emit_read_result-code str_float args.json)
                (sym (run_read-finish args item client x y) ∙ h),
          )
        ]
  ]

  -- When `write` returns, an item and a client were built of the arguments, and the exit code tells the
  -- outcome of the client's batch of this one item: 0 that its first result is a success, 2 that the
  -- call raised a ModbusConnectionError, 1 that the result is an error or that the call raised
  -- another ModbusError; there is no other code.
  pub run_write-Tells :
      (args : WriteArgs F) (exit : Exit F)
      → run_write times F defaults three_s to_float str_float calls args ≡ done exit
      → (item : WriteItem F) × (client : AsyncClient times F) × (build_write_item to_float args
          ≡ done item)
        × (make_client times F defaults three_s args.transport args.call ≡ done client)
        × Tells
            (λ (r : WriteResult F). r.ok?)
            ((calls client).connect >> (calls client).write (item ∷ []))
            exit.code
  unfolding run_write with_client
  run_write-Tells args exit h = elim (Cli-cases (build_write_item to_float args)) [
    | inr (inl x) ↦ ground (arith, x)
    | inr (inr (e, x)) ↦ ground (arith, x)
    | inl (item, x) ↦
        elim (Cli-cases (make_client times F defaults three_s args.transport args.call)) [
          | inr (inl y) ↦ ground (arith, x, y)
          | inr (inr (e, y)) ↦ ground (arith, x, y)
          | inl (client, y) ↦ (
            item,
            client,
            x,
            y,
            finish-Tells (λ r. r.ok?) args.json (λ r. emit_write_result r args.json)
                ((calls client).connect >> (calls client).write (item ∷ [])) exit
                (emit_write_result-code args.json)
                (sym (run_write-finish args item client x y) ∙ h),
          )
        ]
  ]

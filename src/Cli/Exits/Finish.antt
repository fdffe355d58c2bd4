-- ===== src/Cli/Exits/Finish.antt =====
-- What the exit code of `finish`, the end of `read` and `write`, tells of the client's call.
use pymod.Prelude.{
  ℕ, ◌≡◌, ◌≢◌, ◌≤◌, refl, ◌∙◌, arith, Bool, true, false, Bool-cases, ◌⊎◌, inl, inr, List, [], ◌∷◌,
  if◌then◌else◌, sym, ap,
}
use pymod.Errors.{
  Exc, Result, modbus_error, timeout_error, crc_error, exception_response, value_error,
  struct_error, index_error, assertion_error, incomplete_read, python_error, ok, err,
  connection_error, protocol_error, is_modbus_error,
}
use pymod.Cli.{done, system_exit, raised}
use pymod.Cli.Display.{Exit, emit_failure}
use pymod.Cli.Run.{caught, finish}

-- What an exit code says of the outcome of the client's call.
abbrev pub Tells : {R : Type 0} → (R → Bool) → Result (List R) → ℕ → Type 0
Tells {R} is_ok outcome code =
    (code ≤ 2)
    × (code ≡ 0 → (r : R) × (rest : List R) × (outcome ≡ ok (r ∷ rest)) × (is_ok r ≡ true))
    × (code ≡ 2 → outcome ≡ err connection_error)
    × (code ≡ 1
        → ((r : R) × (rest : List R) × (outcome ≡ ok (r ∷ rest)) × (is_ok r ≡ false))
          ⊎ ((e : Exc) × (outcome ≡ err e) × (is_modbus_error e ≡ true) × (e ≢ connection_error)))

done_inj {ℓ} : {A : Type ℓ} {x y : A} → done x ≡ done y → x ≡ y
done_inj {x = x} h = ap (λ c. elim c [ done z ↦ z | system_exit ↦ x | raised e ↦ x ]) h

module _ {F : Type 0} {R : Type 0} (is_ok : R → Bool) where
  caught_modbus :
      (json : Bool) (e : Exc) (exit : Exit F)
      → is_modbus_error e ≡ true
      → e ≢ connection_error
      → done (emit_failure json e 1) ≡ done exit
      → Tells {R = R} is_ok (err e) exit.code
  unfolding emit_failure
  caught_modbus json e exit he hc h =
      let code : 1 ≡ exit.code = ap (λ x. x.code) (done_inj h) in
      (
        omega arith,
        λ z. absurd (omega arith),
        λ z. absurd (omega arith),
        λ z. inr (e, refl, he, hc),
      )

  caught-Tells :
      (json : Bool) (e : Exc) (exit : Exit F)
      → caught json e ≡ done exit
      → Tells {R = R} is_ok (err e) exit.code
  unfolding caught emit_failure
  caught-Tells json connection_error exit h =
      let code : 2 ≡ exit.code = ap (λ x. x.code) (done_inj h) in
      (omega arith, λ z. absurd (omega arith), λ z. refl, λ z. absurd (omega arith))
  caught-Tells json modbus_error exit h =
      caught_modbus json modbus_error exit refl (λ q. ground arith) h
  caught-Tells json timeout_error exit h =
      caught_modbus json timeout_error exit refl (λ q. ground arith) h
  caught-Tells json crc_error exit h = caught_modbus json crc_error exit refl (λ q. ground arith) h
  caught-Tells json protocol_error exit h =
      caught_modbus json protocol_error exit refl (λ q. ground arith) h
  caught-Tells json (exception_response cls code) exit h =
      caught_modbus json (exception_response cls code) exit refl (λ q. ground arith) h
  caught-Tells json value_error exit h = ground arith
  caught-Tells json struct_error exit h = ground arith
  caught-Tells json index_error exit h = ground arith
  caught-Tells json assertion_error exit h = ground arith
  caught-Tells json incomplete_read exit h = ground arith
  caught-Tells json python_error exit h = ground arith

  pub finish-Tells :
      (json : Bool) (emit : R → Exit F) (outcome : Result (List R)) (exit : Exit F)
      → ((r : R) → (emit r).code ≡ (if is_ok r then 0 else 1))
      → finish json emit outcome ≡ done exit
      → Tells is_ok outcome exit.code
  unfolding finish
  finish-Tells json emit (err e) exit he h = caught-Tells json e exit h
  finish-Tells json emit (ok []) exit he h = ground arith
  finish-Tells json emit (ok (r ∷ rest)) exit he h =
      let code : (emit r).code ≡ exit.code = ap (λ x. x.code) (done_inj h) in
      elim (Bool-cases (is_ok r)) [
        | inl y ↦
            let zero : exit.code ≡ 0 =
              sym code ∙ (he r ∙ ap (λ (b : Bool). if b then 0 else 1) y) in
            (
              omega arith,
              λ z. (r, rest, refl, y),
              λ z. absurd (omega arith),
              λ z. absurd (omega arith),
            )
        | inr n ↦
            let one : exit.code ≡ 1 = sym code ∙ (he r ∙ ap (λ (b : Bool). if b then 0 else 1) n) in
            (
              omega arith,
              λ z. absurd (omega arith),
              λ z. absurd (omega arith),
              λ z. inl (r, rest, refl, n),
            )
      ]

-- ===== src/Infra/LandPlane/Proof.antt =====
-- What `verifyAuditProof` of daemon/src/infra/land-plane.ts accepts.
use repomap_core.Prelude.{
  ℕ, ◌≡◌, ◌↔◌, ◌⊎◌, inl, inr, refl, sym, subst, ◌∙◌, ap, arith, String, true, false, not, ||-true,
  Option, none, some, List, [], ◌∷◌, ◌==◌, str_eq, eq_iff, contains, contains-add_new, keep, length,
  All, Some, Bool-cases, Option-cases,
}
use repomap_core.Infra.LandPlane.{
  LandPlaneConfig, GateRunRecord, Parsed, malformed, null_value, value, AuditProofResult, Machine,
  split_lines, trim, is_text, is_pass_of, add_gate,
}
use repomap_core.Infra.LandPlane.Exec.{add_record, add_line, found_gates, proof_in}

-- the text of the field
abbrev pub Is : Option String → String → Type 0
Is o s = o ≡ some s

-- the value is the record of a pass of the gate, for this bead and this run
abbrev pub IsPassRecord : String → String → String → Parsed → Type 0
IsPassRecord bead_id run_timestamp id malformed = ⊥
IsPassRecord bead_id run_timestamp id null_value = ⊥
IsPassRecord bead_id run_timestamp id (value r) =
    Is r.bead_id bead_id × Is r.run_timestamp run_timestamp × Is r.status "pass" × Is r.gate_id id

abbrev pub IsNull : Parsed → Type 0
IsNull malformed = ⊥
IsNull null_value = Unit
IsNull (value r) = ⊥

-- the proof is there
abbrev pub IsOk : Option AuditProofResult → Type 0
IsOk none = ⊥
IsOk (some proof) = proof.ok ≡ true

is_text_lem : (o : Option String) (s : String) → (is_text o s ≡ true) ↔ Is o s
is_text_lem none s = (λ h. cc, λ h. cc)
is_text_lem (some t) s = (λ h. ap some ((eq_iff t s).0 h), λ h. (eq_iff t s).1 (cc))

contains-add_gate :
    (o : Option String) (found : List String) (id : String)
    → (contains (add_gate o found) id ≡ true) ↔ ((contains found id ≡ true) ⊎ Is o id)
contains-add_gate none found id = (λ h. inl h, λ h. elim h [ inl a ↦ a | inr b ↦ cc ])
contains-add_gate (some t) found id = (
  λ h. elim (||-true _ _ (sym (contains-add_new found t id) ∙ h)) [
    | inl a ↦ inl a
    | inr b ↦ inr (ap some ((eq_iff t id).0 b))
  ],
  λ h. elim h [
    | inl a ↦ ground (arith, contains-add_new found t id)
    | inr b ↦
        let e : str_eq t id ≡ true = (eq_iff t id).1 (cc) in
        ground (arith, contains-add_new found t id)
  ],
)

is_pass_of_lem :
    (bead_id run_timestamp : String) (r : GateRunRecord)
    → (is_pass_of bead_id run_timestamp r ≡ true)
      ↔ (Is r.bead_id bead_id × Is r.run_timestamp run_timestamp × Is r.status "pass")
is_pass_of_lem bead_id run_timestamp r =
    let b = is_text_lem r.bead_id bead_id in
    let t = is_text_lem r.run_timestamp run_timestamp in
    let s = is_text_lem r.status "pass" in
    (
      λ h. (b.0 (ground arith), t.0 (ground arith), s.0 (ground arith)),
      λ h. ground (arith, b.1 h.0, t.1 h.1, s.1 h.2),
    )

module _ (T : Machine) (bead_id run_timestamp : String) where
  -- a line that is not empty holds such a value
  abbrev pub LineIs : (Parsed → Type 0) → List ℕ → Type 0
  LineIs P line = ((length (trim line) == 0) ≡ false) × P (T.parse (trim line))

  add_record_lem :
      (p : Parsed) (found : List String) (id : String)
      → (IsNull p × (add_record T bead_id run_timestamp p found ≡ none))
        ⊎ ((found' : List String) × (add_record T bead_id run_timestamp p found ≡ some found')
            × ((contains found' id ≡ true)
                ↔ ((contains found id ≡ true) ⊎ IsPassRecord bead_id run_timestamp id p)))
  add_record_lem malformed found id =
      inr (found, refl, (λ h. inl h, λ h. elim h [ inl a ↦ a | inr b ↦ absurd b ]))
  add_record_lem null_value found id = inl (tt, refl)
  add_record_lem (value r) found id =
      let p = is_pass_of_lem bead_id run_timestamp r in
      let g = contains-add_gate r.gate_id found id in
      elim (Bool-cases (is_pass_of bead_id run_timestamp r)) [
        | inl good ↦
            let (b, t, s) = p.0 good in
            inr (
              add_gate r.gate_id found,
              rw good refl,
              (
                λ h. elim (g.0 h) [ inl a ↦ inl a | inr e ↦ inr (b, t, s, e) ],
                λ h. g.1 (elim h [ inl a ↦ inl a | inr q ↦ inr q.3 ]),
              ),
            )
        | inr bad ↦ inr (
          found,
          rw bad refl,
          (
            λ h. inl h,
            λ h. elim h [ inl a ↦ a | inr q ↦ absurd (ground (arith, p.1 (q.0, q.1, q.2))) ],
          ),
        )
      ]

  add_line_lem :
      (line : List ℕ) (found : List String) (id : String)
      → (LineIs IsNull line × (add_line T bead_id run_timestamp (trim line) found ≡ none))
        ⊎ ((found' : List String) × (add_line T bead_id run_timestamp (trim line) found
              ≡ some found')
            × ((contains found' id ≡ true) ↔ (
                (contains found id ≡ true) ⊎ LineIs (IsPassRecord bead_id run_timestamp id) line)))
  add_line_lem line found id = elim (Bool-cases (length (trim line) == 0)) [
    | inl empty ↦ inr (
      found,
      rw empty refl,
      (λ h. inl h, λ h. elim h [ inl a ↦ a | inr q ↦ absurd (ground (arith, q.0)) ]),
    )
    | inr full ↦ elim (add_record_lem (T.parse (trim line)) found id) [
      | inl (null, e) ↦ inl ((full, null), rw full e)
      | inr (found', e, both) ↦ inr (
        found',
        rw full e,
        (
          λ h. elim (both.0 h) [ inl a ↦ inl a | inr q ↦ inr (full, q) ],
          λ h. both.1 (elim h [ inl a ↦ inl a | inr q ↦ inr q.1 ]),
        ),
      )
    ]
  ]

  -- The loop over the lines throws at a line that is null, and else adds the gates that have a record.
  found_gates_lem :
      (lines : List (List ℕ)) (found : List String) (id : String)
      → (Some (LineIs IsNull) lines × (found_gates T bead_id run_timestamp lines found ≡ none))
        ⊎ ((found' : List String) × (found_gates T bead_id run_timestamp lines found ≡ some found')
            × ((contains found' id ≡ true) ↔ (
                (contains found id ≡ true)
                ⊎ Some (LineIs (IsPassRecord bead_id run_timestamp id)) lines)))
  unfolding found_gates
  found_gates_lem [] found id =
      inr (found, refl, (λ h. inl h, λ h. elim h [ inl a ↦ a | inr b ↦ absurd b ]))
  found_gates_lem (line ∷ lines) found id = elim (add_line_lem line found id) [
    | inl (null, e) ↦ inl (inl null, rw e refl)
    | inr (next, e, one) ↦ elim (found_gates_lem lines next id) [
      | inl (null, n) ↦ inl (inr null, rw e n)
      | inr (found', n, rest) ↦ inr (
        found',
        rw e n,
        (
          λ h. elim (rest.0 h) [
            | inl a ↦ elim (one.0 a) [ inl b ↦ inl b | inr q ↦ inr (inl q) ]
            | inr q ↦ inr (inr q)
          ],
          λ h. rest.1 (elim h [
            | inl a ↦ inl (one.1 (inl a))
            | inr (inl q) ↦ inl (one.1 (inr q))
            | inr (inr q) ↦ inr q
          ]),
        ),
      )
    ]
  ]

  null_record :
      (p : Parsed) (found : List String)
      → IsNull p
      → add_record T bead_id run_timestamp p found ≡ none
  null_record malformed found h = absurd h
  null_record null_value found h = refl
  null_record (value r) found h = absurd h

  null_throws :
      (lines : List (List ℕ)) (found : List String)
      → Some (LineIs IsNull) lines
      → found_gates T bead_id run_timestamp lines found ≡ none
  unfolding found_gates
  null_throws [] found h = elim h [ ]
  null_throws (line ∷ lines) found (inl (full, null)) =
      let e : add_line T bead_id run_timestamp (trim line) found ≡ none =
        rw full (null_record (T.parse (trim line)) found null) in
      rw e refl
  null_throws (line ∷ lines) found (inr later) = elim (add_line_lem line found "") [
    | inl (null, e) ↦ rw e refl
    | inr (next, e, one) ↦ rw e (null_throws lines next later)
  ]

  found_iff :
      (lines : List (List ℕ)) (found : List String)
      → found_gates T bead_id run_timestamp lines [] ≡ some found
      → (id : String)
      → (contains found id ≡ true) ↔ Some (LineIs (IsPassRecord bead_id run_timestamp id)) lines
  found_iff lines found e id = elim (found_gates_lem lines [] id) [
    | inl (null, n) ↦ cc
    | inr (found', n, both) ↦
        let same : found' ≡ found = cc in
        subst
          (λ f.
            (contains f id ≡ true) ↔ Some (LineIs (IsPassRecord bead_id run_timestamp id)) lines)
          same (λ h. elim (both.0 h) [ inl a ↦ cc | inr q ↦ q ], λ q. both.1 (inr q))
  ]

  -- Every line can be read, and every required gate has the record of a pass for this bead and this
  -- run.
  abbrev pub Accepts : LandPlaneConfig → List ℕ → Type 0
  Accepts config content =
      ¬ Some (LineIs IsNull) (split_lines content)
      × All (λ id. Some (LineIs (IsPassRecord bead_id run_timestamp id)) (split_lines content))
          config.required_gate_ids

  none_missing :
      (found ids : List String) (P : String → Type 0)
      → ((id : String) → (contains found id ≡ true) ↔ P id)
      → (length (keep (λ id. not (contains found id)) ids) ≡ 0) ↔ All P ids
  none_missing found [] P h = (λ e. tt, λ e. refl)
  none_missing found (id ∷ ids) P h =
      let ih = none_missing found ids P h in
      (
        λ e. ((h id).0 (ground arith), ih.0 (ground arith)),
        λ e. ground (arith, (h id).1 e.0, ih.1 e.1),
      )

  some_throws :
      (lines : List (List ℕ))
      → Some (LineIs IsNull) lines
      → (found : List String) → found_gates T bead_id run_timestamp lines [] ≡ some found
      → ⊥
  some_throws lines null found e = let n = null_throws lines [] null in cc

  pub proof_in_iff :
      (config : LandPlaneConfig) (content : List ℕ)
      → IsOk (proof_in T config bead_id run_timestamp (some content)) ↔ Accepts config content
  proof_in_iff config content =
      let lines = split_lines content in
      elim (Option-cases (found_gates T bead_id run_timestamp lines [])) [
        | inl threw ↦ rw threw (
          λ e. absurd e,
          λ e. elim (found_gates_lem lines [] "") [
            | inl (null, n) ↦ e.0 null
            | inr (found, n, both) ↦ cc
          ],
        )
        | inr (found, e) ↦
            let all = none_missing found config.required_gate_ids _ (found_iff lines found e) in
            rw e (
              λ h. (λ null. absurd (some_throws lines null found e), all.0 (ground arith)),
              λ h. ground (arith, all.1 h.1),
            )
      ]

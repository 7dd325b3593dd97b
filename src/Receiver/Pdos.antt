-- ===== src/Receiver/Pdos.antt =====
-- receiver.go and config.go: the PDOs of an accepted configuration.
use otelcol_receiver_canopen.Prelude.{
  contains, ℕ, zero, suc, ◌≡◌, refl, String, true, false, some, List, [], ◌∷◌, ◌==◌, nat_eq,
  get_elem?, beq_self, arith, ◌∙◌,
}
use otelcol_receiver_canopen.Prelude.Maps.{Map, lookup, insert, lookup-insert, lookup-insert_self}
use otelcol_receiver_canopen.Config.Checked.{pass}
use otelcol_receiver_canopen.Config.Types.{PdoConfig, Config}
use otelcol_receiver_canopen.Config.Fields.{validate_pdo_loop, validate_pdos}
use otelcol_receiver_canopen.Sniffer.Types.{PdoDef}
use otelcol_receiver_canopen.Receiver.Build.{add_pdos, build_pdo, build_sniffer_config}

-- What passes for a PDO and those behind it.
loop_parts :
    (names : List String) (cob_ids : List ℕ) (p : PdoConfig) (rest : List PdoConfig)
    → validate_pdo_loop names cob_ids (p ∷ rest) ≡ pass
    → (contains cob_ids p.cob_id ≡ false)
      × (validate_pdo_loop (p.name ∷ names) (p.cob_id ∷ cob_ids) rest ≡ pass)
unfolding validate_pdo_loop
loop_parts names cob_ids p rest h = ground arith

different :
    (xs : List ℕ) (a b : ℕ) → contains xs a ≡ false → contains xs b ≡ true → (a == b) ≡ false
different [] a b h k = absurd (ground arith)
different (x ∷ xs) a b h k = ground (arith, different xs a b)

-- A COB-ID that the loop has seen comes no more.
seen_cob_id :
    (names : List String) (cob_ids : List ℕ) (pdos : List PdoConfig) (id : ℕ) (m : Map ℕ PdoDef)
    → validate_pdo_loop names cob_ids pdos ≡ pass
    → contains cob_ids id ≡ true
    → lookup id (add_pdos pdos m) ≡ lookup id m
unfolding validate_pdo_loop add_pdos
seen_cob_id names cob_ids [] id m h k = refl
seen_cob_id names cob_ids (p ∷ rest) id m h k =
    let (new, passed) = loop_parts names cob_ids p rest h in
    seen_cob_id (p.name ∷ names) (p.cob_id ∷ cob_ids) rest id (insert p.cob_id (build_pdo p) m)
      passed (ground arith)
    ∙ lookup-insert p.cob_id id (build_pdo p) m
    ∙ rw (different cob_ids p.cob_id id new k) refl

kept_pdo :
    (names : List String) (cob_ids : List ℕ) (pdos : List PdoConfig) (i : ℕ) (p : PdoConfig)
    (m : Map ℕ PdoDef)
    → validate_pdo_loop names cob_ids pdos ≡ pass
    → get_elem? pdos i ≡ some p
    → lookup p.cob_id (add_pdos pdos m) ≡ some (build_pdo p)
unfolding validate_pdo_loop add_pdos
kept_pdo names cob_ids [] i p m h k = absurd (ground arith)
kept_pdo names cob_ids (q ∷ rest) zero p m h k =
    let (new, passed) = loop_parts names cob_ids q rest h in
    let kept : lookup q.cob_id (add_pdos rest (insert q.cob_id (build_pdo q) m))
        ≡ some (build_pdo q) =
      seen_cob_id (q.name ∷ names) (q.cob_id ∷ cob_ids) rest q.cob_id
        (insert q.cob_id (build_pdo q) m) passed (rw (beq_self q.cob_id) refl)
      ∙ lookup-insert_self q.cob_id (build_pdo q) m in
    cc
kept_pdo names cob_ids (q ∷ rest) (suc i) p m h k =
    kept_pdo (q.name ∷ names) (q.cob_id ∷ cob_ids) rest i p (insert q.cob_id (build_pdo q) m)
      (ground arith) k

-- Every PDO of an accepted list is in the sniffer's map under its COB-ID, with its own definition.
pub every_pdo_kept :
    (cfg : Config) (i : ℕ) (p : PdoConfig)
    → validate_pdos cfg.pdo ≡ pass
    → get_elem? cfg.pdo i ≡ some p
    → lookup p.cob_id (build_sniffer_config cfg).pdos ≡ some (build_pdo p)
unfolding validate_pdos build_sniffer_config
every_pdo_kept cfg i p h k = kept_pdo [] [] cfg.pdo i p [] h k

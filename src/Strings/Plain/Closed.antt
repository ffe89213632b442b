-- ===== src/Strings/Plain/Closed.antt =====
-- What comes out of StringSpliceSpliceOTF
-- (src/main/model/ot/xform/string/StringSpliceSpliceOTF.ts) for two plain edits: plain edits and
-- no-ops, for the same nodes.
use convergence_client_javas.Base.{
  ◌+◌, ◌<◌, ◌≡◌, refl, true, Bool-cases, inl, inr, leb, ◌||◌, length, arith,
}
use convergence_client_javas.Range.{
  RangeRangeRelationship, precedes, preceded_by, meets, met_by, overlaps, overlapped_by, starts,
  started_by, contains, contained_by, finishes, finished_by, equal_to,
}
use convergence_client_javas.Range.Allen.{Allen, get_range_range_relationship-Allen}
use convergence_client_javas.Strings.{StringSpliceOperation}
use convergence_client_javas.Strings.Switches.{Splices, remove_remove}
use convergence_client_javas.Strings.Transform.{
  SpliceType, insert, remove, splice, no_op, get_splice_type, by_splice_types, splice_relationship,
  transform_insert_insert, transform_insert_remove, transform_remove_insert,
  transform_remove_remove, string_splice_splice_otf,
}
use convergence_client_javas.Strings.Convergence.Otf.{Kind, get_splice_type-Kind}
use convergence_client_javas.Strings.Plain.{is_plain_splice}

-- The edits that come out are plain or left out, and for the nodes of those that went in.
pub record StayPlain (s c : StringSpliceOperation) (p : Splices) : Type 0 where
  pub server_plain : (p.server_op.no_op || is_plain_splice p.server_op) ≡ true
  pub client_plain : (p.client_op.no_op || is_plain_splice p.client_op) ≡ true
  pub server_id : p.server_op.id ≡ s.id
  pub client_id : p.client_op.id ≡ c.id

inserts_plain :
    (o : StringSpliceOperation)
    → o.delete_count ≡ 0
    → 0 < length o.insert_value
    → (o.no_op || is_plain_splice o) ≡ true
unfolding is_plain_splice
inserts_plain o h k = ground arith

removes_plain :
    (o : StringSpliceOperation)
    → 0 < o.delete_count
    → length o.insert_value ≡ 0
    → (o.no_op || is_plain_splice o) ≡ true
unfolding is_plain_splice
removes_plain o h k = ground arith

module _ (s c : StringSpliceOperation) where
  -- An insertion among the two.
  insert_insert-StayPlain :
      Kind insert s → Kind insert c → StayPlain s c (transform_insert_insert s c)
  unfolding transform_insert_insert
  insert_insert-StayPlain h k = elim (Bool-cases (leb s.index c.index)) [
    | inl e ↦ rw e (record {
      server_plain = inserts_plain _ h.0 h.1;
      client_plain = inserts_plain _ k.0 k.1;
      server_id = refl;
      client_id = refl;
    })
    | inr e ↦ rw e (record {
      server_plain = inserts_plain _ h.0 h.1;
      client_plain = inserts_plain _ k.0 k.1;
      server_id = refl;
      client_id = refl;
    })
  ]

  insert_remove-StayPlain :
      Kind insert s → Kind remove c → StayPlain s c (transform_insert_remove s c)
  unfolding transform_insert_remove
  insert_remove-StayPlain h k = elim (Bool-cases (leb s.index c.index)) [
    | inl e ↦ rw e (record {
      server_plain = inserts_plain _ h.0 h.1;
      client_plain = removes_plain _ k.0 k.1;
      server_id = refl;
      client_id = refl;
    })
    | inr e ↦ elim (Bool-cases (leb (c.index + c.delete_count) s.index)) [
      | inl f ↦
          rw (e, f)
            (record {
              server_plain = inserts_plain _ h.0 h.1;
              client_plain = removes_plain _ k.0 k.1;
              server_id = refl;
              client_id = refl;
            })
      | inr f ↦
          rw (e, f)
            (record {
              server_plain = refl;
              client_plain = removes_plain _ (omega arith) k.1;
              server_id = refl;
              client_id = refl;
            })
    ]
  ]

  remove_insert-StayPlain :
      Kind remove s → Kind insert c → StayPlain s c (transform_remove_insert s c)
  unfolding transform_remove_insert
  remove_insert-StayPlain h k = elim (Bool-cases (leb c.index s.index)) [
    | inl e ↦ rw e (record {
      server_plain = removes_plain _ h.0 h.1;
      client_plain = inserts_plain _ k.0 k.1;
      server_id = refl;
      client_id = refl;
    })
    | inr e ↦ elim (Bool-cases (leb (s.index + s.delete_count) c.index)) [
      | inl f ↦
          rw (e, f)
            (record {
              server_plain = removes_plain _ h.0 h.1;
              client_plain = inserts_plain _ k.0 k.1;
              server_id = refl;
              client_id = refl;
            })
      | inr f ↦
          rw (e, f)
            (record {
              server_plain = removes_plain _ (omega arith) h.1;
              client_plain = refl;
              server_id = refl;
              client_id = refl;
            })
    ]
  ]

  -- Two removals, by the relationship of their ranges.
  remove_remove_rows-StayPlain :
      (r : RangeRangeRelationship)
      → Allen r s.index (s.index + s.delete_count) c.index (c.index + c.delete_count)
      → Kind remove s
      → Kind remove c
      → StayPlain s c (remove_remove r s c)
  unfolding remove_remove
  remove_remove_rows-StayPlain precedes h k l = record {
    server_plain = removes_plain _ (omega arith) k.1;
    client_plain = removes_plain _ (omega arith) l.1;
    server_id = refl;
    client_id = refl;
  }
  remove_remove_rows-StayPlain preceded_by h k l = record {
    server_plain = removes_plain _ (omega arith) k.1;
    client_plain = removes_plain _ (omega arith) l.1;
    server_id = refl;
    client_id = refl;
  }
  remove_remove_rows-StayPlain meets h k l = record {
    server_plain = removes_plain _ (omega arith) k.1;
    client_plain = removes_plain _ (omega arith) l.1;
    server_id = refl;
    client_id = refl;
  }
  remove_remove_rows-StayPlain overlaps h k l = record {
    server_plain = removes_plain _ (omega arith) k.1;
    client_plain = removes_plain _ (omega arith) l.1;
    server_id = refl;
    client_id = refl;
  }
  remove_remove_rows-StayPlain met_by h k l = record {
    server_plain = removes_plain _ (omega arith) k.1;
    client_plain = removes_plain _ (omega arith) l.1;
    server_id = refl;
    client_id = refl;
  }
  remove_remove_rows-StayPlain overlapped_by h k l = record {
    server_plain = removes_plain _ (omega arith) k.1;
    client_plain = removes_plain _ (omega arith) l.1;
    server_id = refl;
    client_id = refl;
  }
  remove_remove_rows-StayPlain starts h k l = record {
    server_plain = refl;
    client_plain = removes_plain _ (omega arith) l.1;
    server_id = refl;
    client_id = refl;
  }
  remove_remove_rows-StayPlain contained_by h k l = record {
    server_plain = refl;
    client_plain = removes_plain _ (omega arith) l.1;
    server_id = refl;
    client_id = refl;
  }
  remove_remove_rows-StayPlain finishes h k l = record {
    server_plain = refl;
    client_plain = removes_plain _ (omega arith) l.1;
    server_id = refl;
    client_id = refl;
  }
  remove_remove_rows-StayPlain started_by h k l = record {
    server_plain = removes_plain _ (omega arith) k.1;
    client_plain = refl;
    server_id = refl;
    client_id = refl;
  }
  remove_remove_rows-StayPlain contains h k l = record {
    server_plain = removes_plain _ (omega arith) k.1;
    client_plain = refl;
    server_id = refl;
    client_id = refl;
  }
  remove_remove_rows-StayPlain finished_by h k l = record {
    server_plain = removes_plain _ (omega arith) k.1;
    client_plain = refl;
    server_id = refl;
    client_id = refl;
  }
  remove_remove_rows-StayPlain equal_to h k l = record {
    server_plain = refl;
    client_plain = refl;
    server_id = refl;
    client_id = refl;
  }

  by_splice_types-StayPlain :
      (t u : SpliceType)
      → Kind t s
      → Kind u c
      → is_plain_splice s ≡ true
      → is_plain_splice c ≡ true
      → StayPlain s c (by_splice_types t u s c)
  unfolding by_splice_types is_plain_splice transform_remove_remove splice_relationship
  by_splice_types-StayPlain insert insert k l p q = insert_insert-StayPlain k l
  by_splice_types-StayPlain insert remove k l p q = insert_remove-StayPlain k l
  by_splice_types-StayPlain remove insert k l p q = remove_insert-StayPlain k l
  by_splice_types-StayPlain remove remove k l p q =
      remove_remove_rows-StayPlain _
        (get_range_range_relationship-Allen _ _ _ _ (omega arith) (omega arith)) k l
  by_splice_types-StayPlain splice u k l p q = absurd (ground arith)
  by_splice_types-StayPlain no_op u k l p q = absurd (ground arith)
  by_splice_types-StayPlain insert splice k l p q = absurd (ground arith)
  by_splice_types-StayPlain insert no_op k l p q = absurd (ground arith)
  by_splice_types-StayPlain remove splice k l p q = absurd (ground arith)
  by_splice_types-StayPlain remove no_op k l p q = absurd (ground arith)

  -- Two plain splices are transformed to edits that are plain or left out, for the nodes they were
  -- for.
  pub string_splice_splice_otf-StayPlain :
      is_plain_splice s ≡ true
      → is_plain_splice c ≡ true
      → StayPlain s c (string_splice_splice_otf s c)
  unfolding string_splice_splice_otf
  string_splice_splice_otf-StayPlain p q =
      by_splice_types-StayPlain (get_splice_type s) (get_splice_type c) (get_splice_type-Kind s)
        (get_splice_type-Kind c) p q

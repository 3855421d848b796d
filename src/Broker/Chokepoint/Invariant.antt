-- ===== src/Broker/Chokepoint/Invariant.antt =====
-- What every call of app/sidecar/broker/capability-broker.ts keeps.
use capisco.Prelude.{
  ℕ, suc, ◌≤◌, ◌≡◌, refl, ◌⊎◌, inl, inr, true, false, Option, none, some, List, [], ◌∷◌, ◌++◌,
  String, arith, if◌then◌else◌, Option-cases, get_or, ◌==◌, string_eq, nat_eq, list_eq, ==_iff,
  ==_refl, sym, In, In-append_left, In-append_last,
}
use capisco.Prelude.Dict.{
  Dict, get, set, delete, contains, add, remove, get-set, get-delete, contains-add, contains-remove,
}
use capisco.Prelude.Text.{is_empty}
use capisco.Broker.Contract.{Principal, CapabilityRequest, BrokerOutcome, Reason}
use capisco.Broker.Audit.{AuditLog, AuditEntry, decided}
use capisco.Broker.Chokepoint.{
  Broker, Fingerprint, json_eq, request_fingerprint, entry_of, index_grant, unindex_grant,
  delete_all,
}
use capisco.Broker.Chokepoint.{str}
use capisco.Broker.Chokepoint.Change.{
  Appends, Change, quiet, minted, consumed, revoked, Call, step, step-Change,
}

-- The task in a fingerprint, its last part.
abbrev pub task_of : Fingerprint → String
task_of [] = ""
task_of (str t ∷ []) = t
task_of (x ∷ xs) = task_of xs

-- An `allow` decision in the log for exactly this principal and request.
pub record Vouched (entries : List AuditEntry) (f : Fingerprint) : Type 0 where
  pub entry : AuditEntry
  pub logged : In entry entries
  pub principal : Principal
  pub request : CapabilityRequest
  pub reason : Reason
  pub bound : f ≡ request_fingerprint principal request
  pub what : entry.entry ≡ entry_of principal request (decided BrokerOutcome.allow) reason

-- The ordinals of the entries go up from `n` by one, to `m`.
abbrev pub Numbered : ℕ → List AuditEntry → ℕ → Type 0
Numbered n [] m = n ≡ m
Numbered n (x ∷ xs) m = (x.seq ≡ suc n) × Numbered (suc n) xs m

pub record IsSound (b : Broker) : Type 0 where
  pub below : (id : ℕ) (f : Fingerprint) → get id b.grants ≡ some f → id ≤ b.grant_seq
  pub vouched : (id : ℕ) (f : Fingerprint) → get id b.grants ≡ some f → Vouched b.audit.entries f
  pub indexed :
      (id : ℕ) (f : Fingerprint)
      → get id b.grants ≡ some f
      → is_empty (task_of f) ≡ false
      → contains id (get_or (get (task_of f) b.grants_by_task) []) ≡ true
  pub numbered : Numbered 0 b.audit.entries b.audit.seq

Numbered-append :
    (n m : ℕ) (xs : List AuditEntry) (x : AuditEntry)
    → Numbered n xs m
    → x.seq ≡ suc m
    → Numbered n (xs ++ x ∷ []) (suc m)
Numbered-append n m [] x h e = ground arith
Numbered-append n m (y ∷ xs) x h e = (h.0, Numbered-append (suc n) m xs x h.1 e)

Appends-Numbered :
    (l l' : AuditLog) → Appends l l' → Numbered 0 l.entries l.seq → Numbered 0 l'.entries l'.seq
Appends-Numbered l l' (inl e) h = rw e h
Appends-Numbered l l' (inr (x, e)) h =
    rw e (Numbered-append 0 l.seq l.entries (record { seq = suc l.seq; entry = x }) h refl)

Vouched-extend : (xs ys : List AuditEntry) (f : Fingerprint) → Vouched xs f → Vouched (xs ++ ys) f
Vouched-extend xs ys f v = record {
  entry = v.entry;
  logged = In-append_left v.entry xs ys v.logged;
  principal = v.principal;
  request = v.request;
  reason = v.reason;
  bound = v.bound;
  what = v.what;
}

Appends-Vouched :
    (l l' : AuditLog) (f : Fingerprint) → Appends l l' → Vouched l.entries f → Vouched l'.entries f
Appends-Vouched l l' f (inl e) v = rw e v
Appends-Vouched l l' f (inr (x, e)) v = rw e (Vouched-extend l.entries _ f v)

pub get-delete_all :
    (ids : List ℕ) (id : ℕ) (m : Dict ℕ Fingerprint)
    → get id (delete_all ids m) ≡ (if contains id ids then none else get id m)
unfolding delete_all contains
get-delete_all [] id m = refl
get-delete_all (x ∷ ids) id m =
    ground (arith, get-delete_all ids id (delete x m), get-delete x id m)

get-index_grant :
    (m : Dict String (List ℕ)) (task : Option String) (id j : ℕ) (t : String)
    → contains j (get_or (get t m) []) ≡ true
    → contains j (get_or (get t (index_grant m task id)) []) ≡ true
unfolding index_grant
get-index_grant m task id j t h =
    let k : String = get_or task "" in
    ground (
      arith,
      get-set k t (add id (get_or (get k m) [])) m,
      contains-add id j (get_or (get k m) []),
      ==_iff k t,
    )

get-unindex_grant :
    (m : Dict String (List ℕ)) (task : Option String) (id j : ℕ) (t : String)
    → (id == j) ≡ false
    → contains j (get_or (get t m) []) ≡ true
    → contains j (get_or (get t (unindex_grant m task id)) []) ≡ true
unfolding unindex_grant
get-unindex_grant m task id j t d h = elim (Option-cases (get (get_or task "") m)) [
  | inl e ↦ ground arith
  | inr (ids, e) ↦
      let k : String = get_or task "" in
      ground (arith, get-set k t (remove id ids) m, contains-remove id j ids, ==_iff k t)
]

get-index_grant_self :
    (m : Dict String (List ℕ)) (task : Option String) (id : ℕ)
    → is_empty (get_or task "") ≡ false
    → contains id (get_or (get (get_or task "") (index_grant m task id)) []) ≡ true
unfolding index_grant
get-index_grant_self m none id h = cc
get-index_grant_self m (some t) id h = ground (
  arith,
  get-set t t (add id (get_or (get t m) [])) m,
  contains-add id id (get_or (get t m) []),
  ==_refl t,
  ==_refl id,
)

get-set-cases :
    (k j : ℕ) (f g : Fingerprint) (m : Dict ℕ Fingerprint)
    → get j (set k f m) ≡ some g
    → ((k ≡ j) × (f ≡ g)) ⊎ (get j m ≡ some g)
get-set-cases k j f g m h = ground (arith, get-set k j f m, ==_iff k j)

get-delete-cases :
    (k j : ℕ) (g : Fingerprint) (m : Dict ℕ Fingerprint)
    → get j (delete k m) ≡ some g
    → ((k == j) ≡ false) × (get j m ≡ some g)
get-delete-cases k j g m h = ground (arith, get-delete k j m)

get-delete_all-cases :
    (ids : List ℕ) (j : ℕ) (g : Fingerprint) (m : Dict ℕ Fingerprint)
    → get j (delete_all ids m) ≡ some g
    → (contains j ids ≡ false) × (get j m ≡ some g)
get-delete_all-cases ids j g m h = ground (arith, get-delete_all ids j m)

module _ (b b' : Broker) (v : IsSound b) where
  minted-IsSound :
      (p : Principal) (r : CapabilityRequest) (reason : Reason)
      → b'.audit ≡ record {
        entries =
            b.audit.entries
            ++ record {
              seq = suc b.audit.seq;
              entry = entry_of p r (decided BrokerOutcome.allow) reason;
            }
              ∷ [];
        seq = suc b.audit.seq;
      }
      → b'.grants ≡ set (suc b.grant_seq) (request_fingerprint p r) b.grants
      → b'.grants_by_task ≡ index_grant b.grants_by_task r.task_id (suc b.grant_seq)
      → b'.grant_seq ≡ suc b.grant_seq
      → IsSound b'
  unfolding request_fingerprint
  minted-IsSound p r reason a g i s = record {
    below = λ id f h. elim (get-set-cases _ id _ f b.grants (rw g at h)) [
      | inl (e, _) ↦ omega (arith, s)
      | inr h' ↦ omega (arith, v.below id f h', s)
    ];
    vouched = λ id f h. elim (get-set-cases _ id _ f b.grants (rw g at h)) [
      | inl (_, e) ↦ record {
        entry = x;
        logged = rw a (In-append_last x b.audit.entries);
        principal = p;
        request = r;
        reason = reason;
        bound = sym e;
        what = refl;
      }
      | inr h' ↦ rw a (Vouched-extend b.audit.entries (x ∷ []) f (v.vouched id f h'))
    ];
    indexed = λ id f h t. elim (get-set-cases _ id _ f b.grants (rw g at h)) [
      | inl (e, q) ↦
          rw (i, ← e, ← q)
            (get-index_grant_self b.grants_by_task r.task_id (suc b.grant_seq) (rw (← q) at t))
      | inr h' ↦ rw i (
          get-index_grant b.grants_by_task r.task_id (suc b.grant_seq) id (task_of f)
            (v.indexed id f h' t))
    ];
    numbered = rw a (Numbered-append 0 b.audit.seq b.audit.entries x v.numbered refl);
  }
    where
      x : AuditEntry
      x = record {
        seq = suc b.audit.seq;
        entry = entry_of p r (decided BrokerOutcome.allow) reason;
      }

  consumed-IsSound :
      (r : CapabilityRequest) (id : ℕ)
      → Appends b.audit b'.audit
      → b'.grants ≡ delete id b.grants
      → b'.grants_by_task ≡ unindex_grant b.grants_by_task r.task_id id
      → b'.grant_seq ≡ b.grant_seq
      → IsSound b'
  consumed-IsSound r id a g i s = record {
    below = λ j f h. omega (arith, v.below j f (get-delete-cases id j f b.grants (rw g at h)).1, s);
    vouched = λ j f h.
        Appends-Vouched b.audit b'.audit f a
          (v.vouched j f (get-delete-cases id j f b.grants (rw g at h)).1);
    indexed = λ j f h t.
        let (d, h') = get-delete-cases id j f b.grants (rw g at h) in
        rw i (get-unindex_grant b.grants_by_task r.task_id id j (task_of f) d (v.indexed j f h' t));
    numbered = Appends-Numbered b.audit b'.audit a v.numbered;
  }

  revoked-IsSound :
      (task : String) (ids : List ℕ)
      → b'.audit ≡ b.audit
      → get task b.grants_by_task ≡ some ids
      → b'.grants ≡ delete_all ids b.grants
      → b'.grants_by_task ≡ delete task b.grants_by_task
      → b'.grant_seq ≡ b.grant_seq
      → IsSound b'
  revoked-IsSound task ids a q g i s = record {
    below = λ j f h.
        omega (arith, v.below j f (get-delete_all-cases ids j f b.grants (rw g at h)).1, s);
    vouched = λ j f h. rw a (v.vouched j f (get-delete_all-cases ids j f b.grants (rw g at h)).1);
    indexed = λ j f h t.
        let (d, h') = get-delete_all-cases ids j f b.grants (rw g at h) in
        let old = v.indexed j f h' t in
        ground (arith, get-delete task (task_of f) b.grants_by_task, ==_iff task (task_of f));
    numbered = rw a v.numbered;
  }

Change-IsSound : (b b' : Broker) → Change b b' → IsSound b → IsSound b'
Change-IsSound b b' (quiet a g i s u) v = record {
  below = λ id f h. omega (arith, v.below id f (rw g at h), s);
  vouched = λ id f h. Appends-Vouched b.audit b'.audit f a (v.vouched id f (rw g at h));
  indexed = λ id f h t. rw i (v.indexed id f (rw g at h) t);
  numbered = Appends-Numbered b.audit b'.audit a v.numbered;
}
Change-IsSound b b' (minted p r reason a g i s u) v = minted-IsSound b b' v p r reason a g i s
Change-IsSound b b' (consumed r id a g i s u) v = consumed-IsSound b b' v r id a g i s
Change-IsSound b b' (revoked task ids a q g i s u) v = revoked-IsSound b b' v task ids a q g i s

-- Every call keeps the broker sound: each outstanding grant was minted, is vouched for by an `allow`
-- entry of the audit log for exactly its principal and request, and is found in the index of its
-- task; and the log's ordinals go up by one from 1.
pub step-IsSound : (b : Broker) (c : Call) → IsSound b → IsSound (step b c)
step-IsSound b c v = Change-IsSound b (step b c) (step-Change b c) v

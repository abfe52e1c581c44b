-- ===== src/Quarantine/Pending.antt =====
-- Where the file is that is being quarantined: at its path or under the name that holds it.
use elyra.Base.{
  String, false, ◌≡◌, ◌≢◌, ◌⊎◌, inl, inr, refl, sym, ap, subst, ◌∙◌, none, some, Bool-cases,
}
use mathlib.Core.Option.{none-ne-some}
use elyra.Base.Dict.{Dict, lookup, insert, erase, lookup-insert, lookup-erase, beq_refl}
use elyra.Quarantine.Files.{FilePath, path_key, beq_path, beq_path_iff, Node, World}
use elyra.Quarantine.Manager.{pending_path}
use elyra.Quarantine.Stable.{Stable}

pub other_path : (p q : FilePath) → p ≢ q → beq_path p q ≡ false
other_path p q ne = elim (Bool-cases (beq_path p q)) [
  | inl same ↦ absurd (ne ((beq_path_iff p q).0 same))
  | inr different ↦ different
]

pub lookup-put_other :
    (p q : FilePath) (f : Node) (files : Dict FilePath Node)
    → p ≢ q
    → lookup q (insert p f files) ≡ lookup q files
lookup-put_other p q f files ne = lookup-insert p q f files ∙ rw (other_path p q ne) refl

pub lookup-put :
    (p : FilePath) (f : Node) (files : Dict FilePath Node) → lookup p (insert p f files) ≡ some f
lookup-put p f files = lookup-insert p p f files ∙ rw (beq_refl p) refl

pub lookup-drop_other :
    (p q : FilePath) (files : Dict FilePath Node)
    → p ≢ q
    → lookup q (erase p files) ≡ lookup q files
lookup-drop_other p q files ne = lookup-erase p q files ∙ rw (other_path p q ne) refl

pub taken-other :
    (p q : FilePath) (files : Dict FilePath Node) {f : Node}
    → lookup p files ≡ none
    → lookup q files ≡ some f
    → p ≢ q
taken-other p q files {f} free there same =
    absurd (none-ne-some f (sym (subst (λ r. lookup r files ≡ none) same free) ∙ there))

module _ (source : FilePath) (node : Node) where
  -- The file is at its path or under the holding name.
  abbrev pub IsSomewhere : World → Type 0
  IsSomewhere w =
      (lookup source w.files ≡ some node)
      ⊎ ((h : FilePath) × (w.holding_path ≡ some h) × (lookup h w.files ≡ some node))

  pub record IsHeld (quarantine_dir metadata_dir : String) (w : World) : Type 0 where
    pub somewhere : IsSomewhere w
    pub pending :
        (h : FilePath) → w.holding_path ≡ some h → (id : String) × (h ≡ pending_path source id)
    pub temporary_in : (p : FilePath) → w.temporary_payload ≡ some p → p.dir ≡ quarantine_dir
    pub final_in : (p : FilePath) → w.final_payload ≡ some p → p.dir ≡ quarantine_dir
    pub metadata_in : (p : FilePath) → w.metadata_path ≡ some p → p.dir ≡ metadata_dir

  -- Nothing was done yet.
  pub record IsReady (w : World) : Type 0 where
    pub at_source : lookup source w.files ≡ some node
    pub no_holding : w.holding_path ≡ none
    pub no_temporary : w.temporary_payload ≡ none
    pub no_final : w.final_payload ≡ none
    pub no_metadata : w.metadata_path ≡ none

  abbrev pub IsOutside : FilePath → Type 0
  IsOutside p = p.dir ≢ source.dir

  outside-other : (p q : FilePath) → IsOutside p → q.dir ≡ source.dir → p ≢ q
  outside-other p q out within same = out (ap (λ (r : FilePath). r.dir) same ∙ within)

  pub IsReady-Stable : Stable IsReady IsOutside
  IsReady-Stable = record {
    counting = λ w h. record {
      at_source = h.at_source;
      no_holding = h.no_holding;
      no_temporary = h.no_temporary;
      no_final = h.no_final;
      no_metadata = h.no_metadata;
    };
    dropping = λ p w out h. record {
      at_source =
          lookup-drop_other p source w.files (outside-other p source out refl) ∙ h.at_source;
      no_holding = h.no_holding;
      no_temporary = h.no_temporary;
      no_final = h.no_final;
      no_metadata = h.no_metadata;
    };
    putting = λ p f w out h. record {
      at_source =
          lookup-put_other p source f w.files (outside-other p source out refl) ∙ h.at_source;
      no_holding = h.no_holding;
      no_temporary = h.no_temporary;
      no_final = h.no_final;
      no_metadata = h.no_metadata;
    };
    taking = λ p f w free h. record {
      at_source =
          lookup-put_other p source f w.files (taken-other p source w.files free h.at_source)
          ∙ h.at_source;
      no_holding = h.no_holding;
      no_temporary = h.no_temporary;
      no_final = h.no_final;
      no_metadata = h.no_metadata;
    };
  }

  module _ (quarantine_dir metadata_dir : String) where
    abbrev Held : World → Type 0
    Held = IsHeld quarantine_dir metadata_dir

    IsHeld-files :
        (files : Dict FilePath Node) (w : World)
        → ((q : FilePath)
            → q.dir ≡ source.dir
            → lookup q w.files ≡ some node
            → lookup q files ≡ some node)
        → Held w
        → Held (record w { files = files })
    IsHeld-files files w same h = record {
      somewhere = elim h.somewhere [
        | inl at ↦ inl (same source refl at)
        | inr (p, held, at) ↦
            let (id, is) = h.pending p held in
            inr (p, held, same p (ap (λ (r : FilePath). r.dir) is) at)
      ];
      pending = h.pending;
      temporary_in = h.temporary_in;
      final_in = h.final_in;
      metadata_in = h.metadata_in;
    }

    pub IsHeld-Stable : Stable Held IsOutside
    IsHeld-Stable = record {
      counting = λ w h. record {
        somewhere = h.somewhere;
        pending = h.pending;
        temporary_in = h.temporary_in;
        final_in = h.final_in;
        metadata_in = h.metadata_in;
      };
      dropping = λ p w out h.
          IsHeld-files (erase p w.files) w
            (λ q within at. lookup-drop_other p q w.files (outside-other p q out within) ∙ at) h;
      putting = λ p f w out h.
          IsHeld-files (insert p f w.files) w
            (λ q within at. lookup-put_other p q f w.files (outside-other p q out within) ∙ at) h;
      taking = λ p f w free h.
          IsHeld-files (insert p f w.files) w
            (λ q within at. lookup-put_other p q f w.files (taken-other p q w.files free at) ∙ at)
            h;
    }

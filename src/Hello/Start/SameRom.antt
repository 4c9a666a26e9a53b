-- ===== src/Hello/Start/SameRom.antt =====
-- What the kernel needs of the image is in system ROM: another memory with the same ROM will do.
use minimum_tests.Base.{ℕ, ◌+◌, ◌*◌, ◌%◌, ◌^◌, ◌≤◌, ◌<◌, ◌≡◌, ◌∙◌, refl, sym, subst, u32, arith}
use minimum_tests.Memory.{Memory, SameOn, word_at_same}
use minimum_tests.Platform.{system_rom_base, system_rom_size}
use minimum_tests.Platform.BootInfo.{BootInfo}
use minimum_tests.Hello.Image.{ModuleRecord, ModuleSegment, module_at, segment_at}
use minimum_tests.Hello.Image.Find.{IsNamed}
use minimum_tests.Hello.Tables.Rom.{IsMappable}
use minimum_tests.Hello.Module.InPlace.{IsLoadable, IsPlanned}
use minimum_tests.Hello.Module.Segments.{segment}
use minimum_tests.Hello.Module.Sequence.{IsEntry}
use minimum_tests.Hello.Module.Exact.{segment_table, IsGood}
use minimum_tests.Hello.Start.{module_name}
use minimum_tests.Hello.Start.Exact.{record_at, IsUserHello, IsStartable}

module _ (m m' : Memory) (same : SameOn system_rom_base system_rom_size m m') where
  module_at_same :
      (a : ℕ)
      → system_rom_base ≤ a
      → a + 24 ≤ system_rom_base + system_rom_size
      → module_at m' a ≡ module_at m a
  unfolding module_at
  module_at_same a lo hi =
      rw
        (
          word_at_same m m' system_rom_base system_rom_size a same lo (omega arith),
          word_at_same m m' system_rom_base system_rom_size (a + 4) same (omega arith)
              (omega arith),
          word_at_same m m' system_rom_base system_rom_size (a + 8) same (omega arith)
              (omega arith),
          word_at_same m m' system_rom_base system_rom_size (a + 12) same (omega arith)
              (omega arith),
          word_at_same m m' system_rom_base system_rom_size (a + 16) same (omega arith)
              (omega arith),
          word_at_same m m' system_rom_base system_rom_size (a + 20) same (omega arith)
              (omega arith),
        )
        refl

  segment_at_same :
      (a : ℕ)
      → system_rom_base ≤ a
      → a + 20 ≤ system_rom_base + system_rom_size
      → segment_at m' a ≡ segment_at m a
  unfolding segment_at
  segment_at_same a lo hi =
      rw
        (
          word_at_same m m' system_rom_base system_rom_size a same lo (omega arith),
          word_at_same m m' system_rom_base system_rom_size (a + 4) same (omega arith)
              (omega arith),
          word_at_same m m' system_rom_base system_rom_size (a + 8) same (omega arith)
              (omega arith),
          word_at_same m m' system_rom_base system_rom_size (a + 12) same (omega arith)
              (omega arith),
          word_at_same m m' system_rom_base system_rom_size (a + 16) same (omega arith)
              (omega arith),
        )
        refl

  module _ (info : BootInfo) (mappable : IsMappable info) where
    IsNamed-same :
        (name : ℕ → ℕ) (name_length : ℕ) (r : ModuleRecord)
        → IsNamed info name name_length m r
        → IsNamed info name name_length m' r
    IsNamed-same name name_length r n = record {
      same_length = n.same_length;
      in_image = n.in_image;
      same_bytes = λ j lt.
          same ((info.system_rom_base + r.name_offset + j) % 2 ^ 32) (
            omega (arith, n.in_image, mappable.base, mappable.fits),
            omega (arith, n.in_image, mappable.base, mappable.fits),
          )
          ∙ n.same_bytes j lt;
    }

    pub segment_same :
        (r : ModuleRecord) (k : ℕ)
        → r.segment_table_offset + r.segment_count * 32 ≤ info.image_size
        → k < r.segment_count
        → segment m' info (segment_table m' info r) k ≡ segment m info (segment_table m info r) k
    segment_same r k fits lt =
        segment_at_same (u32 (u32 (info.system_rom_base + r.segment_table_offset) + k * 32))
          (omega (arith, mappable.base, mappable.fits))
          (omega (arith, mappable.base, mappable.fits))

    IsGood_same : (r : ModuleRecord) → IsGood m info r → IsGood m' info r
    IsGood_same r g = record {
      records = g.records;
      loadable = λ k lt.
          subst (λ (s : ModuleSegment). IsLoadable info s) (sym (segment_same r k g.records lt))
            (g.loadable k lt);
      plan = g.plan;
      plan_ok = g.plan_ok;
      planned = λ k lt.
          subst (λ (s : ModuleSegment). IsPlanned g.plan s) (sym (segment_same r k g.records lt))
            (g.planned k lt);
      entry =
          let (k, lo, hi, at) = g.entry in
          (
            k,
            lo,
            hi,
            subst (λ (s : ModuleSegment). IsEntry s r.entry_vaddr)
                (sym (segment_same r k g.records hi)) at,
          );
      aligned = g.aligned;
    }

    pub record_same :
        (i : ℕ)
        → info.module_table_offset + info.module_count * 32 ≤ info.image_size
        → i < info.module_count
        → module_at m' (record_at m' info i) ≡ module_at m (record_at m info i)
    record_same i fits lt =
        module_at_same (u32 (u32 (info.system_rom_base + info.module_table_offset) + i * 32))
          (omega (arith, mappable.base, mappable.fits))
          (omega (arith, mappable.base, mappable.fits))

-- The same record has the name in both.
pub IsUserHello-same :
    (m m' : Memory) (info : BootInfo) (i : ℕ)
    → SameOn system_rom_base system_rom_size m m'
    → IsMappable info
    → info.module_table_offset + info.module_count * 32 ≤ info.image_size
    → i < info.module_count
    → IsUserHello m info i
    → IsUserHello m' info i
IsUserHello-same m m' info i same mappable fits lt named =
    subst (λ (r : ModuleRecord). IsNamed info module_name 10 m' r)
      (sym (record_same m m' same info mappable i fits lt))
      (IsNamed-same m m' same info mappable module_name 10 (module_at m (record_at m info i)) named)

-- The image in the second memory starts if that in the first does.
pub IsStartable_same :
    (m m' : Memory) (info : BootInfo)
    → SameOn system_rom_base system_rom_size m m'
    → IsStartable m info
    → IsStartable m' info
IsStartable_same m m' info same ok = record {
  mappable = ok.mappable;
  table_fits = ok.table_fits;
  index = ok.index;
  within = ok.within;
  named = IsUserHello-same m m' info ok.index same ok.mappable ok.table_fits ok.within ok.named;
  first = λ j lt named. ok.first j lt (
      IsUserHello-same m' m info j (λ a inside. sym (same a inside)) ok.mappable ok.table_fits
        (omega (arith, ok.within)) named);
  good =
      subst (λ (r : ModuleRecord). IsGood m' info r)
        (sym (record_same m m' same info ok.mappable ok.index ok.table_fits ok.within))
        (IsGood_same m m' same info ok.mappable (module_at m (record_at m info ok.index)) ok.good);
}

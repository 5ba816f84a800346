-- ===== src/Wslfuse/Created.antt =====
-- FileIoctlCreateVolume of src/wslfuse/device.c makes a volume or leaves everything as it was.
use winfuse.Base.{
  ℕ, ◌+◌, ◌≡◌, ◌≢◌, refl, sym, arith, Bool, true, false, not, ◌==◌, ◌&&◌, ltb, leb, [], ◌∷◌, ◌++◌,
  if◌then◌else◌,
}
use winfuse.Status.{nt_success}
use winfuse.Wslfuse.{DeviceState, Outcome, eio, Resources}
use winfuse.Wslfuse.Volume.{
  VolumeCalls, Acquired, create_volume, open_volume, name_volume, volume_failed, volume_opened,
  volume_cleanup, volume_params_size, volume_params_v0_size, is_success,
}

-- Where a call of the system succeeds, it gives a handle or an object.
pub record Gives (c : VolumeCalls) : Type 0 where
  pub handle : nt_success c.open_status ≡ true → c.handle ≢ 0
  pub object : nt_success c.reference_status ≡ true → c.object ≢ 0

-- An instance, a handle and an object more.
abbrev pub one_more : Resources → Resources
one_more r = record r {
  instances = r.instances + 1;
  initialized = r.initialized + 1;
  volume_handles = r.volume_handles + 1;
  volume_file_objects = r.volume_file_objects + 1;
}

-- Whether the file has no volume yet, the parameters have a known version, memory is given, and each call
-- of the system succeeds.
abbrev pub all_succeed : ℕ → VolumeCalls → DeviceState → Bool
all_succeed f c w =
    (w.files f).volume_file_object == 0
    && (leb (if 0 == c.version then 456 else c.version) 504
        && (not (c.instance == 0)
            && (nt_success c.init_status
                && (nt_success c.open_status
                    && (nt_success c.reference_status
                        && (nt_success c.name_status && nt_success c.utf8_status))))))

-- The file `f` has got a volume, and is the last of FuseMiscFileList.
pub record HasVolume (f : ℕ) (c : VolumeCalls) (w v : DeviceState) : Type 0 where
  pub fuse_instance : (v.files f).fuse_instance ≡ c.instance
  pub volume_handle : (v.files f).volume_handle ≡ c.handle
  pub volume_file_object : (v.files f).volume_file_object ≡ c.object
  pub others : (g : ℕ) → g ≢ f → v.files g ≡ w.files g
  pub file_list : v.file_list ≡ w.file_list ++ f ∷ []
  pub resources : v.resources ≡ one_more w.resources
  pub mounts : v.mounts ≡ w.mounts
  pub mount_list : v.mount_list ≡ w.mount_list

pub record Creates (f : ℕ) (c : VolumeCalls) (w : DeviceState) (r : Outcome × DeviceState)
    : Type 0 where
  pub answer : is_success r.0 ≡ all_succeed f c w
  pub made : is_success r.0 ≡ true → HasVolume f c w r.1
  pub failed : is_success r.0 ≡ false → r.1 ≡ w
  pub created :
      is_success r.0 ≡ true
      → ((w.files f).volume_file_object ≡ 0)
        × (c.object ≢ 0)
        × (r.1 ≡ (volume_opened f c (record w { resources = one_more w.resources })).1)

module _ (f : ℕ) (c : VolumeCalls) (w : DeviceState) where
  if-Creates :
      {r t : Outcome × DeviceState} (b : Bool)
      → (b ≡ true → Creates f c w r)
      → (b ≡ false → Creates f c w t)
      → Creates f c w (if b then r else t)
  if-Creates true h k = h refl
  if-Creates false h k = k refl

  unchanged : all_succeed f c w ≡ false → Creates f c w (eio, w)
  unchanged bad = record {
    answer = sym bad;
    made = λ e. absurd (cc e);
    failed = λ e. refl;
    created = λ e. absurd (cc e);
  }

  -- What was acquired is given back.
  cleaned :
      (a : Acquired) (r : Resources)
      → volume_cleanup a r ≡ w.resources
      → all_succeed f c w ≡ false
      → Creates f c w (volume_failed a (record w { resources = r }))
  unfolding volume_failed
  cleaned a r e bad = record {
    answer = sym bad;
    made = λ x. absurd (cc x);
    failed = λ _. rw e refl;
    created = λ x. absurd (cc x);
  }

  opened-Creates :
      all_succeed f c w ≡ true
      → ((w.files f).volume_file_object ≡ 0)
      → c.object ≢ 0
      → Creates f c w (volume_opened f c (record w { resources = one_more w.resources }))
  unfolding volume_opened
  opened-Creates ok none_yet some_object = record {
    answer = sym ok;
    made = λ e. record {
      fuse_instance = ground arith;
      volume_handle = ground arith;
      volume_file_object = ground arith;
      others = λ g d. ground (arith, d);
      file_list = refl;
      resources = refl;
      mounts = refl;
      mount_list = refl;
    };
    failed = λ e. absurd (cc e);
    created = λ e. (none_yet, some_object, refl);
  }

  pub create_volume-Creates : Gives c → Creates f c w (create_volume f c w)
  unfolding create_volume open_volume name_volume volume_cleanup
  create_volume-Creates gives =
      if-Creates (not ((w.files f).volume_file_object == 0)) (λ b. unchanged (ground arith))
        (λ none_yet.
          if-Creates
            (ltb volume_params_size (if 0 == c.version then volume_params_v0_size else c.version))
            (λ b. unchanged (ground arith))
            (λ version.
              if-Creates (c.instance == 0) (λ b. unchanged (ground arith))
                (λ some_instance.
                  if-Creates (not (nt_success c.init_status))
                    (λ b. cleaned _ _ (ground (arith, some_instance)) (ground arith))
                    (λ init_ok.
                      if-Creates (not (nt_success c.open_status))
                        (λ b. cleaned _ _ (ground (arith, some_instance)) (ground arith))
                        (λ open_ok.
                          let some_handle : c.handle ≢ 0 = gives.handle (ground (arith, open_ok)) in
                          if-Creates (not (nt_success c.reference_status))
                            (λ b.
                              cleaned _ _ (ground (arith, some_instance, some_handle))
                                (ground arith))
                            (λ referenced.
                              let some_object : c.object ≢ 0 =
                                gives.object (ground (arith, referenced)) in
                              if-Creates (not (nt_success c.name_status))
                                (λ b.
                                  cleaned _ _
                                    (ground (arith, some_instance, some_handle, some_object))
                                    (ground arith))
                                (λ named.
                                  if-Creates (not (nt_success c.utf8_status))
                                    (λ b.
                                      cleaned _ _
                                        (ground (arith, some_instance, some_handle, some_object))
                                        (ground arith))
                                    (λ converted.
                                      opened-Creates (ground arith) (ground (arith, none_yet))
                                        some_object))))))))

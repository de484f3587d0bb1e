-- ===== src/Acs/Tests.antt =====
-- Runs of the client library of the control system, and its theorems at concrete inputs.
use bta_utils.Prelude.{
  ℕ, ◌+◌, ◌≤◌, ◌<◌, ◌≡◌, refl, true, false, some, List, [], ◌∷◌, ◌++◌, length, arith, ◌⊎◌, inr, pos,
  negsuc, codes, print_u,
}
use bta_utils.Acs.{
  Client, CmdQueue, Sent, MsgGet, ucmd, queue_of, get_cmd_queue, set_acckey, send_cmd,
}
use bta_utils.Acs.Sending.{send_cmd_fits}
use bta_utils.Acs.Session.{login_lem}
use bta_utils.Acs.Passwords.{
  find_lev_passwd, find_from, encode_lev_passwd, check_lev_passwd, check_lev_passwd_lem, Opens,
  NoneOpens,
}
use bta_utils.Acs.Segment.{
  ShmBlock, ShmGet, BtaData, get_shm_block, close_shm_block, check_shm_block, is_served,
  segment_session, shm_id,
}

abbrev no_queue : CmdQueue
no_queue = record { side = false; id = negsuc 0; acckey = 0 }

-- The globals at the start of a program, and with the user's queue opened.
abbrev fresh : Client
fresh = record {
  main = no_queue;
  operator = no_queue;
  user = no_queue;
  snd_id = negsuc 0;
  cmd_src_pid = 0;
  cmd_src_ip = 0;
}

abbrev user_opened : Client
user_opened = record fresh {
  user = record { side = false; id = pos 7; acckey = 0 };
  snd_id = pos 7;
}

abbrev found_queue : MsgGet
found_queue = record { found = pos 7; absent = false; created = negsuc 0 }

opens_user : get_cmd_queue found_queue ucmd false fresh ≡ (user_opened, false)
unfolding get_cmd_queue
opens_user = refl

send_cmd_fits_example :
    (sent : Sent) × ((send_cmd 50 1 (pos 3) (5 ∷ 6 ∷ []) (pos 2) user_opened).1 ≡ some sent)
    × (sent.message.mtype ≡ 3)
    × (sent.queue ≡ pos 7)
    × (13 ≤ sent.size)
    × (sent.size ≤ 112)
    × (sent.size ≡ length sent.message.mtext + 12)
send_cmd_fits_example = send_cmd_fits 50 1 2 (5 ∷ 6 ∷ []) 2 user_opened refl (omega arith)

login_lem_example :
    let c1 = (get_cmd_queue found_queue ucmd false fresh).0 in
    (sent : Sent) × ((send_cmd 50 1 (pos 3) [] (pos 0) (set_acckey 0xABCD c1)).1 ≡ some sent)
    × (sent.queue ≡ (queue_of c1 ucmd).id)
    × (sent.message.acckey ≡ 0xABCD)
login_lem_example = login_lem found_queue ucmd fresh 0xABCD 50 1 2 [] (pos 0) (inr refl)

-- A `crypt` that gives the salt and eight letters of the password.
abbrev plain_crypt : List ℕ → List ℕ → List ℕ
plain_crypt passwd salt = salt ++ passwd

abbrev levels : List ℕ
levels = 0 ∷ 0x67656361 ∷ 0 ∷ 0 ∷ 0 ∷ []

opens_level_2 :
    check_lev_passwd plain_crypt levels (codes "abcdefgh") user_opened
    ≡ (2, record user_opened { user = record { side = false; id = pos 7; acckey = 0x68666462 } })
unfolding check_lev_passwd set_acckey find_lev_passwd find_from encode_lev_passwd print_u
opens_level_2 = refl

check_lev_passwd_lem_example :
    let (nlev, c') = check_lev_passwd plain_crypt levels (codes "abcdefgh") user_opened in
    ((nlev ≡ 0) × (c' ≡ user_opened) × NoneOpens plain_crypt levels (codes "abcdefgh"))
    ⊎ ((1 ≤ nlev)
        × (nlev ≤ 5)
        × Opens plain_crypt levels (codes "abcdefgh") nlev
        × (c' ≡ set_acckey (encode_lev_passwd plain_crypt (codes "abcdefgh") nlev).0 user_opened)
        × ((n : ℕ) → nlev < n → n ≤ 5 → ¬ Opens plain_crypt levels (codes "abcdefgh") n))
check_lev_passwd_lem_example =
    check_lev_passwd_lem plain_crypt levels (codes "abcdefgh") user_opened

abbrev sdat : ShmBlock
sdat = record { code = 0x74616453; size = 1700; maxsize = 2048; side = false; id = negsuc 0 }

abbrev blank_data : BtaData ℕ
blank_data = record {
  magic = 0;
  version = 0;
  size = 0;
  tel_hardware = 0;
  pos_corr = 0;
  trkok_mode = 0;
  inp_b = 0;
  pressure = 0;
  pep_code_a = 0;
  pep_code_z = 0;
  pep_code_p = 0;
  pep_code_f = 0;
  pep_code_d = 0;
  dome_sew_n = 0;
  rest = 9;
}

abbrev new_segment : ShmGet
new_segment = record {
  found = negsuc 0;
  absent = true;
  created = λ n. pos n;
  attached = true;
  locked = true;
}

abbrev old_segment : ShmGet
old_segment = record {
  found = pos 2048;
  absent = false;
  created = λ n. negsuc 0;
  attached = true;
  locked = false;
}

segment_session_example :
    let (ret, b', d1, warnings) = get_shm_block 0 new_segment true sdat blank_data in
    let (ret_c, b_c, d2, warnings_c) = get_shm_block 0 old_segment false sdat d1 in
    (ret ≡ true)
    × (((is_served sdat blank_data ≡ true) × (d1 ≡ blank_data))
        ⊎ ((is_served sdat blank_data ≡ false) × (d1.rest ≡ 0)))
    × (ret_c ≡ true)
    × (d2 ≡ d1)
    × (warnings_c ≡ [])
    × (check_shm_block b_c d2 ≡ true)
    × (check_shm_block b_c (close_shm_block b_c d2).0 ≡ true)
    × (check_shm_block b_c (close_shm_block b' d2).0 ≡ false)
segment_session_example =
    segment_session 0 new_segment old_segment sdat blank_data (unfold shm_id in (refl, refl, refl))
      (unfold shm_id in (refl, refl, refl))

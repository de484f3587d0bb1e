-- ===== src/Json/Print.antt =====
-- jsonbta/bta_print.c: the document that answers a request. The texts of the numbers, by the key they
-- are printed with, are arguments, and each `send` is taken to send all.
use bta_utils.Prelude.{
  ℕ, Bool, ◌||◌, Option, none, some, List, [], ◌∷◌, ◌++◌, length, ltb, if◌then◌else◌, ℤ, pos,
  negsuc, codes, eqb_ℤ, not,
}
use bta_utils.Json.{
  BtaPars, Group, mtime, sidtime, telmode, telfocus, target, p2mode, eqcoor, horcoor, valsens, diff,
  vel, corr, meteo, ReceivedBytes, parce_incoming_buf,
}

-- What the document shows of the telescope: whether the segment that get_shm_block gives passes
-- check_shm_block, its modes, as the numbers of the shared memory, whether the
-- times of the blasts and of the last rain are in the past, and the texts of the other values.
pub record Telescope : Type 0 where
  pub shm_ok : Bool
  pub tel_hardware : ℤ
  pub tel_mode : ℤ
  pub sys_mode : ℤ
  pub tel_focus : ℤ
  pub sys_target : ℤ
  pub p2_state : ℤ
  pub has_blast : Bool
  pub has_precip : Bool
  pub value_text : List ℕ → List ℕ

-- A `switch` of numbers into texts, with its default.
abbrev pub switch : ℤ → List (ℤ × List ℕ) → List ℕ → List ℕ
switch x [] default = default
switch x ((k, s) ∷ cases) default = if eqb_ℤ x k then s else switch x cases default

abbrev pub system_table : List (ℤ × List ℕ)
system_table =
    (pos 0, codes "Stopping")
    ∷ (pos 1, codes "Waiting")
    ∷ (pos 2, codes "Pointing")
    ∷ (pos 3, codes "Pointing")
    ∷ (pos 4, codes "Seeking")
    ∷ (pos 5, codes "Seeking")
    ∷ (pos 6, codes "Seeking")
    ∷ (pos 7, codes "Seeking")
    ∷ (pos 8, codes "Tracking")
    ∷ (pos 9, codes "Correction")
    ∷ (pos 10, codes "Testing")
    ∷ []

unfoldable pub mode_text : Telescope → List ℕ
mode_text t =
    if eqb_ℤ t.tel_hardware (pos 0)
    then codes "Off"
    else (if not (eqb_ℤ t.tel_mode (pos 0))
        then codes "Manual"
        else switch t.sys_mode system_table (codes "Stopping"))

abbrev pub focus_table : List (ℤ × List ℕ)
focus_table = (pos 0, codes "Prime") ∷ (pos 1, codes "Nasmyth1") ∷ (pos 2, codes "Nasmyth2") ∷ []

unfoldable pub focus_text : ℤ → List ℕ
focus_text f = switch f focus_table (codes "Prime")

abbrev pub target_table : List (ℤ × List ℕ)
target_table =
    (pos 1, codes "Object")
    ∷ (pos 0, codes "A/Z-Pos.")
    ∷ (pos 2, codes "Nest")
    ∷ (pos 3, codes "Zenith")
    ∷ (pos 4, codes "Horizon")
    ∷ []

unfoldable pub target_text : ℤ → List ℕ
target_text x = switch x target_table (codes "Object")

abbrev pub p2_table : List (ℤ × List ℕ)
p2_table =
    (pos 0, codes "Stop")
    ∷ (pos 1, codes "Track")
    ∷ (pos 2, codes "Move+")
    ∷ (negsuc 1, codes "Move-")
    ∷ []

unfoldable pub p2_text : Telescope → List ℕ
p2_text t =
    if eqb_ℤ t.tel_hardware (pos 1) then switch t.p2_state p2_table (codes "Stop") else codes "Off"

-- A key with its value, a string in quotes for `json_send_s`.
abbrev pub Pair : Type 0
Pair = List ℕ × List ℕ

abbrev pub quoted : List ℕ → List ℕ
quoted s = codes "\"" ++ (s ++ codes "\"")

-- The calls of JSON with these keys.
abbrev pub numbers : Telescope → List (List ℕ) → List Pair
numbers t [] = []
numbers t (k ∷ ks) = (k, t.value_text k) ∷ numbers t ks

-- The keys of the numbers of a group.
abbrev pub keys_of : Telescope → Group → List (List ℕ)
keys_of t mtime = codes "M_time" ∷ []
keys_of t sidtime = codes "JDate" ∷ codes "S_time" ∷ []
keys_of t telfocus = codes "ValFoc" ∷ []
keys_of t eqcoor =
    codes "CurAlpha"
    ∷ codes "CurDelta"
    ∷ codes "SrcAlpha"
    ∷ codes "SrcDelta"
    ∷ codes "InpAlpha"
    ∷ codes "InpDelta"
    ∷ codes "TelAlpha"
    ∷ codes "TelDelta"
    ∷ codes "InpRA2000"
    ∷ codes "InpDec2000"
    ∷ codes "CurRA2000"
    ∷ codes "CurDec2000"
    ∷ []
keys_of t horcoor =
    codes "InpAzim"
    ∷ codes "InpZenD"
    ∷ codes "CurAzim"
    ∷ codes "CurZenD"
    ∷ codes "CurPA"
    ∷ codes "SrcPA"
    ∷ codes "InpPA"
    ∷ codes "TelPA"
    ∷ []
keys_of t valsens = codes "ValAzim" ∷ codes "ValZenD" ∷ codes "ValP2" ∷ codes "ValDome" ∷ []
keys_of t diff = codes "DiffAzim" ∷ codes "DiffZenD" ∷ codes "DiffP2" ∷ codes "DiffDome" ∷ []
keys_of t vel =
    codes "VelAzim" ∷ codes "VelZenD" ∷ codes "VelP2" ∷ codes "VelPA" ∷ codes "VelDome" ∷ []
keys_of t corr = codes "CorrAlpha" ∷ codes "CorrDelta" ∷ codes "CorrAzim" ∷ codes "CorrZenD" ∷ []
keys_of t meteo =
    (codes "ValTout" ∷ codes "ValTind" ∷ codes "ValTmir" ∷ codes "ValPres" ∷ codes "ValWind" ∷ [])
    ++ ((if t.has_blast then codes "Blast10" ∷ codes "Blast15" ∷ [] else [])
        ++ (codes "ValHumd" ∷ (if t.has_precip then codes "Precipt" ∷ [] else [])))
keys_of t _ = []

-- What is printed for a group.
unfoldable pub group_pairs : Telescope → Group → List Pair
group_pairs t telmode = (codes "Tel_Mode", quoted (mode_text t)) ∷ []
group_pairs t telfocus =
    (codes "Tel_Focus", quoted (focus_text t.tel_focus)) ∷ numbers t (keys_of t telfocus)
group_pairs t target = (codes "Tel_Taget", quoted (target_text t.sys_target)) ∷ []
group_pairs t p2mode = (codes "P2_Mode", quoted (p2_text t)) ∷ []
group_pairs t g = numbers t (keys_of t g)

-- The groups in the order of the document.
abbrev pub printed : List Group
printed =
    mtime ∷ sidtime ∷ telmode ∷ telfocus ∷ target ∷ p2mode ∷ eqcoor ∷ horcoor ∷ valsens ∷ diff ∷ vel
    ∷ corr ∷ meteo ∷ []

unfoldable pub pairs_of : BtaPars → Telescope → List Group → List Pair
pairs_of par t [] = []
pairs_of par t (g ∷ gs) =
    let rest = pairs_of par t gs in if par.all || par.has g then group_pairs t g ++ rest else rest

-- `json_send`: a pair that is sent whole, and what follows; `none` where it does not fit the buffer
-- of 255 bytes, and bytes behind its text are sent.
abbrev pub pair_text : Pair → List ℕ
pair_text (k, v) = codes ",\n\"" ++ (k ++ (codes "\": " ++ v))

abbrev pub sent_before : List ℕ → Option (List ℕ) → Option (List ℕ)
sent_before s none = none
sent_before s (some rest) = some (s ++ rest)

unfoldable pub json_send : List Pair → Option (List ℕ)
json_send [] = some (codes "\n}\n")
json_send (p ∷ ps) =
    let rest = sent_before (pair_text p) (json_send ps) in
    if ltb (length (pair_text p)) 255 then rest else none

-- `make_JSON`; none where the segment is not valid, and the process exits before it sends.
unfoldable pub make_json : BtaPars → Telescope → Option (Option (List ℕ))
make_json par t =
    if t.shm_ok
    then some (sent_before (codes "{\n\"ACS_BTA\": true") (json_send (pairs_of par t printed)))
    else none

-- `handle`: what is sent to a client, each answer for the state of the telescope at its time.
abbrev pub sent_answers :
    BtaPars → Option (Option (List ℕ)) → List (Option (List ℕ)) → List (Option (List ℕ))
sent_answers par none rest = []
sent_answers par (some doc) rest = doc ∷ (if par.all then [] else rest)

abbrev pub answer_to : Option BtaPars → Telescope → List (Option (List ℕ)) → List (Option (List ℕ))
answer_to none t rest = []
answer_to (some par) t rest = sent_answers par (make_json par t) rest

unfoldable pub handle : List (ReceivedBytes × Telescope) → List (Option (List ℕ))
handle [] = []
handle ((r, t) ∷ rs) = answer_to (parce_incoming_buf (r.bytes ++ r.behind)) t (handle rs)

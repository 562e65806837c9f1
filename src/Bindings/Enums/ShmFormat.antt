-- ===== src/Bindings/Enums/ShmFormat.antt =====
-- `ShmFormat` of client/client.go.
use sysc_wayland.Base.{ℕ, List, [], ◌∷◌}
use sysc_wayland.Bindings.Enums.{Enum, Switch}

abbrev pub constants : List ℕ
constants =
    0 ∷ 1 ∷ 0x20203843 ∷ 0x38424752 ∷ 0x38524742 ∷ 0x32315258 ∷ 0x32314258 ∷ 0x32315852 ∷ 0x32315842
    ∷ 0x32315241 ∷ 0x32314241 ∷ 0x32314152 ∷ 0x32314142 ∷ 0x35315258 ∷ 0x35314258 ∷ 0x35315852
    ∷ 0x35315842 ∷ 0x35315241 ∷ 0x35314241 ∷ 0x35314152 ∷ 0x35314142 ∷ 0x36314752 ∷ 0x36314742
    ∷ 0x34324752 ∷ 0x34324742 ∷ 0x34324258 ∷ 0x34325852 ∷ 0x34325842 ∷ 0x34324241 ∷ 0x34324152
    ∷ 0x34324142 ∷ 0x30335258 ∷ 0x30334258 ∷ 0x30335852 ∷ 0x30335842 ∷ 0x30335241 ∷ 0x30334241
    ∷ 0x30334152 ∷ 0x30334142 ∷ 0x56595559 ∷ 0x55595659 ∷ 0x59565955 ∷ 0x59555956 ∷ 0x56555941
    ∷ 0x3231564e ∷ 0x3132564e ∷ 0x3631564e ∷ 0x3136564e ∷ 0x39565559 ∷ 0x39555659 ∷ 0x31315559
    ∷ 0x31315659 ∷ 0x32315559 ∷ 0x32315659 ∷ 0x36315559 ∷ 0x36315659 ∷ 0x34325559 ∷ 0x34325659
    ∷ 0x20203852 ∷ 0x20363152 ∷ 0x38384752 ∷ 0x38385247 ∷ 0x32334752 ∷ 0x32335247 ∷ 0x48345258
    ∷ 0x48344258 ∷ 0x48345241 ∷ 0x48344241 ∷ 0x56555958 ∷ 0x34325556 ∷ 0x30335556 ∷ 0x30313259
    ∷ 0x32313259 ∷ 0x36313259 ∷ 0x30313459 ∷ 0x32313459 ∷ 0x36313459 ∷ 0x30335658 ∷ 0x36335658
    ∷ 0x38345658 ∷ 0x304c3059 ∷ 0x304c3058 ∷ 0x324c3059 ∷ 0x324c3058 ∷ 0x38305559 ∷ 0x30315559
    ∷ 0x38415258 ∷ 0x38414258 ∷ 0x38415852 ∷ 0x38415842 ∷ 0x38413852 ∷ 0x38413842 ∷ 0x38413552
    ∷ 0x38413542 ∷ 0x3432564e ∷ 0x3234564e ∷ 0x30313250 ∷ 0x30313050 ∷ 0x32313050 ∷ 0x36313050
    ∷ 0x30314241 ∷ 0x3531564e ∷ 0x30313451 ∷ 0x31303451 ∷ 0x38345258 ∷ 0x38344258 ∷ 0x38345241
    ∷ 0x38344241 ∷ 0x20203143 ∷ 0x20203243 ∷ 0x20203443 ∷ 0x20203144 ∷ 0x20203244 ∷ 0x20203444
    ∷ 0x20203844 ∷ 0x20203152 ∷ 0x20203252 ∷ 0x20203452 ∷ 0x20303152 ∷ 0x20323152 ∷ 0x59555641
    ∷ 0x59555658 ∷ 0x30333050 ∷ []

-- The cases of `Name`.
abbrev pub names : Switch
names =
    (0, "argb8888")
    ∷ (1, "xrgb8888")
    ∷ (0x20203843, "c8")
    ∷ (0x38424752, "rgb332")
    ∷ (0x38524742, "bgr233")
    ∷ (0x32315258, "xrgb4444")
    ∷ (0x32314258, "xbgr4444")
    ∷ (0x32315852, "rgbx4444")
    ∷ (0x32315842, "bgrx4444")
    ∷ (0x32315241, "argb4444")
    ∷ (0x32314241, "abgr4444")
    ∷ (0x32314152, "rgba4444")
    ∷ (0x32314142, "bgra4444")
    ∷ (0x35315258, "xrgb1555")
    ∷ (0x35314258, "xbgr1555")
    ∷ (0x35315852, "rgbx5551")
    ∷ (0x35315842, "bgrx5551")
    ∷ (0x35315241, "argb1555")
    ∷ (0x35314241, "abgr1555")
    ∷ (0x35314152, "rgba5551")
    ∷ (0x35314142, "bgra5551")
    ∷ (0x36314752, "rgb565")
    ∷ (0x36314742, "bgr565")
    ∷ (0x34324752, "rgb888")
    ∷ (0x34324742, "bgr888")
    ∷ (0x34324258, "xbgr8888")
    ∷ (0x34325852, "rgbx8888")
    ∷ (0x34325842, "bgrx8888")
    ∷ (0x34324241, "abgr8888")
    ∷ (0x34324152, "rgba8888")
    ∷ (0x34324142, "bgra8888")
    ∷ (0x30335258, "xrgb2101010")
    ∷ (0x30334258, "xbgr2101010")
    ∷ (0x30335852, "rgbx1010102")
    ∷ (0x30335842, "bgrx1010102")
    ∷ (0x30335241, "argb2101010")
    ∷ (0x30334241, "abgr2101010")
    ∷ (0x30334152, "rgba1010102")
    ∷ (0x30334142, "bgra1010102")
    ∷ (0x56595559, "yuyv")
    ∷ (0x55595659, "yvyu")
    ∷ (0x59565955, "uyvy")
    ∷ (0x59555956, "vyuy")
    ∷ (0x56555941, "ayuv")
    ∷ (0x3231564e, "nv12")
    ∷ (0x3132564e, "nv21")
    ∷ (0x3631564e, "nv16")
    ∷ (0x3136564e, "nv61")
    ∷ (0x39565559, "yuv410")
    ∷ (0x39555659, "yvu410")
    ∷ (0x31315559, "yuv411")
    ∷ (0x31315659, "yvu411")
    ∷ (0x32315559, "yuv420")
    ∷ (0x32315659, "yvu420")
    ∷ (0x36315559, "yuv422")
    ∷ (0x36315659, "yvu422")
    ∷ (0x34325559, "yuv444")
    ∷ (0x34325659, "yvu444")
    ∷ (0x20203852, "r8")
    ∷ (0x20363152, "r16")
    ∷ (0x38384752, "rg88")
    ∷ (0x38385247, "gr88")
    ∷ (0x32334752, "rg1616")
    ∷ (0x32335247, "gr1616")
    ∷ (0x48345258, "xrgb16161616f")
    ∷ (0x48344258, "xbgr16161616f")
    ∷ (0x48345241, "argb16161616f")
    ∷ (0x48344241, "abgr16161616f")
    ∷ (0x56555958, "xyuv8888")
    ∷ (0x34325556, "vuy888")
    ∷ (0x30335556, "vuy101010")
    ∷ (0x30313259, "y210")
    ∷ (0x32313259, "y212")
    ∷ (0x36313259, "y216")
    ∷ (0x30313459, "y410")
    ∷ (0x32313459, "y412")
    ∷ (0x36313459, "y416")
    ∷ (0x30335658, "xvyu2101010")
    ∷ (0x36335658, "xvyu12_16161616")
    ∷ (0x38345658, "xvyu16161616")
    ∷ (0x304c3059, "y0l0")
    ∷ (0x304c3058, "x0l0")
    ∷ (0x324c3059, "y0l2")
    ∷ (0x324c3058, "x0l2")
    ∷ (0x38305559, "yuv420_8bit")
    ∷ (0x30315559, "yuv420_10bit")
    ∷ (0x38415258, "xrgb8888_a8")
    ∷ (0x38414258, "xbgr8888_a8")
    ∷ (0x38415852, "rgbx8888_a8")
    ∷ (0x38415842, "bgrx8888_a8")
    ∷ (0x38413852, "rgb888_a8")
    ∷ (0x38413842, "bgr888_a8")
    ∷ (0x38413552, "rgb565_a8")
    ∷ (0x38413542, "bgr565_a8")
    ∷ (0x3432564e, "nv24")
    ∷ (0x3234564e, "nv42")
    ∷ (0x30313250, "p210")
    ∷ (0x30313050, "p010")
    ∷ (0x32313050, "p012")
    ∷ (0x36313050, "p016")
    ∷ (0x30314241, "axbxgxrx106106106106")
    ∷ (0x3531564e, "nv15")
    ∷ (0x30313451, "q410")
    ∷ (0x31303451, "q401")
    ∷ (0x38345258, "xrgb16161616")
    ∷ (0x38344258, "xbgr16161616")
    ∷ (0x38345241, "argb16161616")
    ∷ (0x38344241, "abgr16161616")
    ∷ (0x20203143, "c1")
    ∷ (0x20203243, "c2")
    ∷ (0x20203443, "c4")
    ∷ (0x20203144, "d1")
    ∷ (0x20203244, "d2")
    ∷ (0x20203444, "d4")
    ∷ (0x20203844, "d8")
    ∷ (0x20203152, "r1")
    ∷ (0x20203252, "r2")
    ∷ (0x20203452, "r4")
    ∷ (0x20303152, "r10")
    ∷ (0x20323152, "r12")
    ∷ (0x59555641, "avuy8888")
    ∷ (0x59555658, "xvuy8888")
    ∷ (0x30333050, "p030")
    ∷ []

-- The cases of `Value`.
abbrev pub values : Switch
values =
    (0, "0")
    ∷ (1, "1")
    ∷ (0x20203843, "0x20203843")
    ∷ (0x38424752, "0x38424752")
    ∷ (0x38524742, "0x38524742")
    ∷ (0x32315258, "0x32315258")
    ∷ (0x32314258, "0x32314258")
    ∷ (0x32315852, "0x32315852")
    ∷ (0x32315842, "0x32315842")
    ∷ (0x32315241, "0x32315241")
    ∷ (0x32314241, "0x32314241")
    ∷ (0x32314152, "0x32314152")
    ∷ (0x32314142, "0x32314142")
    ∷ (0x35315258, "0x35315258")
    ∷ (0x35314258, "0x35314258")
    ∷ (0x35315852, "0x35315852")
    ∷ (0x35315842, "0x35315842")
    ∷ (0x35315241, "0x35315241")
    ∷ (0x35314241, "0x35314241")
    ∷ (0x35314152, "0x35314152")
    ∷ (0x35314142, "0x35314142")
    ∷ (0x36314752, "0x36314752")
    ∷ (0x36314742, "0x36314742")
    ∷ (0x34324752, "0x34324752")
    ∷ (0x34324742, "0x34324742")
    ∷ (0x34324258, "0x34324258")
    ∷ (0x34325852, "0x34325852")
    ∷ (0x34325842, "0x34325842")
    ∷ (0x34324241, "0x34324241")
    ∷ (0x34324152, "0x34324152")
    ∷ (0x34324142, "0x34324142")
    ∷ (0x30335258, "0x30335258")
    ∷ (0x30334258, "0x30334258")
    ∷ (0x30335852, "0x30335852")
    ∷ (0x30335842, "0x30335842")
    ∷ (0x30335241, "0x30335241")
    ∷ (0x30334241, "0x30334241")
    ∷ (0x30334152, "0x30334152")
    ∷ (0x30334142, "0x30334142")
    ∷ (0x56595559, "0x56595559")
    ∷ (0x55595659, "0x55595659")
    ∷ (0x59565955, "0x59565955")
    ∷ (0x59555956, "0x59555956")
    ∷ (0x56555941, "0x56555941")
    ∷ (0x3231564e, "0x3231564e")
    ∷ (0x3132564e, "0x3132564e")
    ∷ (0x3631564e, "0x3631564e")
    ∷ (0x3136564e, "0x3136564e")
    ∷ (0x39565559, "0x39565559")
    ∷ (0x39555659, "0x39555659")
    ∷ (0x31315559, "0x31315559")
    ∷ (0x31315659, "0x31315659")
    ∷ (0x32315559, "0x32315559")
    ∷ (0x32315659, "0x32315659")
    ∷ (0x36315559, "0x36315559")
    ∷ (0x36315659, "0x36315659")
    ∷ (0x34325559, "0x34325559")
    ∷ (0x34325659, "0x34325659")
    ∷ (0x20203852, "0x20203852")
    ∷ (0x20363152, "0x20363152")
    ∷ (0x38384752, "0x38384752")
    ∷ (0x38385247, "0x38385247")
    ∷ (0x32334752, "0x32334752")
    ∷ (0x32335247, "0x32335247")
    ∷ (0x48345258, "0x48345258")
    ∷ (0x48344258, "0x48344258")
    ∷ (0x48345241, "0x48345241")
    ∷ (0x48344241, "0x48344241")
    ∷ (0x56555958, "0x56555958")
    ∷ (0x34325556, "0x34325556")
    ∷ (0x30335556, "0x30335556")
    ∷ (0x30313259, "0x30313259")
    ∷ (0x32313259, "0x32313259")
    ∷ (0x36313259, "0x36313259")
    ∷ (0x30313459, "0x30313459")
    ∷ (0x32313459, "0x32313459")
    ∷ (0x36313459, "0x36313459")
    ∷ (0x30335658, "0x30335658")
    ∷ (0x36335658, "0x36335658")
    ∷ (0x38345658, "0x38345658")
    ∷ (0x304c3059, "0x304c3059")
    ∷ (0x304c3058, "0x304c3058")
    ∷ (0x324c3059, "0x324c3059")
    ∷ (0x324c3058, "0x324c3058")
    ∷ (0x38305559, "0x38305559")
    ∷ (0x30315559, "0x30315559")
    ∷ (0x38415258, "0x38415258")
    ∷ (0x38414258, "0x38414258")
    ∷ (0x38415852, "0x38415852")
    ∷ (0x38415842, "0x38415842")
    ∷ (0x38413852, "0x38413852")
    ∷ (0x38413842, "0x38413842")
    ∷ (0x38413552, "0x38413552")
    ∷ (0x38413542, "0x38413542")
    ∷ (0x3432564e, "0x3432564e")
    ∷ (0x3234564e, "0x3234564e")
    ∷ (0x30313250, "0x30313250")
    ∷ (0x30313050, "0x30313050")
    ∷ (0x32313050, "0x32313050")
    ∷ (0x36313050, "0x36313050")
    ∷ (0x30314241, "0x30314241")
    ∷ (0x3531564e, "0x3531564e")
    ∷ (0x30313451, "0x30313451")
    ∷ (0x31303451, "0x31303451")
    ∷ (0x38345258, "0x38345258")
    ∷ (0x38344258, "0x38344258")
    ∷ (0x38345241, "0x38345241")
    ∷ (0x38344241, "0x38344241")
    ∷ (0x20203143, "0x20203143")
    ∷ (0x20203243, "0x20203243")
    ∷ (0x20203443, "0x20203443")
    ∷ (0x20203144, "0x20203144")
    ∷ (0x20203244, "0x20203244")
    ∷ (0x20203444, "0x20203444")
    ∷ (0x20203844, "0x20203844")
    ∷ (0x20203152, "0x20203152")
    ∷ (0x20203252, "0x20203252")
    ∷ (0x20203452, "0x20203452")
    ∷ (0x20303152, "0x20303152")
    ∷ (0x20323152, "0x20323152")
    ∷ (0x59555641, "0x59555641")
    ∷ (0x59555658, "0x59555658")
    ∷ (0x30333050, "0x30333050")
    ∷ []

abbrev pub enum : Enum
enum = record { constants = constants; names = names; values = values }

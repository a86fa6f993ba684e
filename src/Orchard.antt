-- ===== src/Orchard.antt =====
-- shenyu_gateway/orchard.py: what a fruit on its vine looks like, what the weather does to it, and
-- how it is when it is picked. Here are the tables; the functions are in the modules below.
pub mod Weather
pub mod Fruit
pub mod Lines
pub mod Buckets
mod Tests
use shenyugateway.Common.{ℕ, List, [], ◌∷◌, Option, none, some, String}
use shenyugateway.Text.{Text, codes}
use shenyugateway.Json.{Json}

-- The keys of the three tables of conditions.
pub data Bucket : Type 0 where
  fresh tended steady dusty wilting nibbled : Bucket
  swelling overdue underground dormant ripe overripe : Bucket
  green_picked half_good smaller hollow quiet watered_down : Bucket
  sweetened sun_scorched : Bucket

-- A key as the text that is stored.
abbrev pub bucket_key : Bucket → Text
bucket_key fresh = codes "fresh"
bucket_key tended = codes "tended"
bucket_key steady = codes "steady"
bucket_key dusty = codes "dusty"
bucket_key wilting = codes "wilting"
bucket_key nibbled = codes "nibbled"
bucket_key swelling = codes "swelling"
bucket_key overdue = codes "overdue"
bucket_key underground = codes "underground"
bucket_key dormant = codes "dormant"
bucket_key ripe = codes "ripe"
bucket_key overripe = codes "overripe"
bucket_key green_picked = codes "green_picked"
bucket_key half_good = codes "half_good"
bucket_key smaller = codes "smaller"
bucket_key hollow = codes "hollow"
bucket_key quiet = codes "quiet"
bucket_key watered_down = codes "watered_down"
bucket_key sweetened = codes "sweetened"
bucket_key sun_scorched = codes "sun_scorched"

-- `CONDITIONS_GREEN.get(bucket, [])`
abbrev pub conditions_green : Bucket → List Text
conditions_green fresh = codes "青着，硬的。刚挂上去的样子。" ∷ codes "还小。叶子是新的那种绿。" ∷ codes "枝上多了一颗。看着有精神。" ∷ []
conditions_green tended =
    codes "比上次大了一点。有人常来看它。" ∷ codes "青着，但沉手。长得挺好。" ∷ codes "叶子舒展着。这一片的土是湿的。" ∷ []
conditions_green steady = codes "还青着。不快，但一直在长。" ∷ codes "老样子。没什么变化，也没坏。" ∷ codes "青的。摸上去凉。" ∷ []
conditions_green dusty =
    codes "叶子上落了灰。有一阵没人来过了。" ∷ codes "还挂着。藤有点干。" ∷ codes "青着，只是没人碰过。枝头静得很。" ∷ []
conditions_green wilting = codes "叶子卷起来了一点。缺水。" ∷ codes "有点蔫。不至于掉，但看着累。" ∷ codes "枝垂下去了些。它还在等。" ∷ []
conditions_green nibbled =
    codes "被虫啃了一小口。不深，皮还好。" ∷ codes "侧面有个小疤。什么时候磕的不知道。" ∷ codes "叶子上有几个洞。虫来过又走了。" ∷ []
conditions_green swelling =
    codes "一夜鼓起来了。日子快到了。" ∷ codes "颜色开始转。看着像要熟了。" ∷ codes "沉了不少。掂在手里有分量。" ∷ []
conditions_green overdue =
    codes "日子过了，它还挂着。没掉。" ∷ codes "该熟的那天过去了。它自己有主意。" ∷ codes "还在枝上。比说好的晚，但没走。" ∷ []
conditions_green underground =
    codes "埋在土里没动静。但根还活着。" ∷ codes "地面上什么都看不见。底下的事看不见而已。" ∷ codes "还没冒尖。土是松的，有人翻过。" ∷ []
conditions_green dormant = codes "冷。枝上没什么变化，收着劲。" ∷ codes "这时节不长。等回暖。" ∷ codes "叶子落了。芽在里面。" ∷ []
conditions_green _ = []

-- `CONDITIONS_PICKED.get(bucket, [])`
abbrev pub conditions_picked : Bucket → List Text
conditions_picked ripe = codes "熟得刚好。" ∷ codes "正是这个时候。皮一碰就下来了。" ∷ codes "熟透了，甜。等得值。" ∷ []
conditions_picked overripe = codes "熟过头了，甜得发闷。" ∷ codes "再等一天就该掉了。刚好赶上。" ∷ codes "有点软。味道很浓。" ∷ []
conditions_picked green_picked = codes "还有点涩。摘早了。" ∷ codes "硬的。要放几天才好吃。" ∷ codes "青味还在。也算摘下来了。" ∷ []
conditions_picked half_good = codes "一半好，一半有虫眼。" ∷ codes "切开一边是好的。另一边算了。" ∷ codes "有疤，但里面是好的。" ∷ []
conditions_picked smaller = codes "比想的小。" ∷ codes "没长到该有的个头。味道还在。" ∷ codes "小小的一颗。分量不重。" ∷ []
conditions_picked hollow = codes "摘下来才发现里面是空的。" ∷ codes "轻。晃一晃有声音。" ∷ codes "外面看着好，剖开是空的。" ∷ []
conditions_picked quiet = codes "摘了。就是普通的一颗。" ∷ codes "没什么特别。摘下来了。" ∷ codes "该摘就摘了。" ∷ []
conditions_picked _ = []

-- `CONDITIONS_WEATHERED.get(bucket)`, with no lines for a missing key.
abbrev pub conditions_weathered : Bucket → List Text
conditions_weathered watered_down = codes "涨了水，味淡。那场雨太大了。" ∷ codes "个头不小，咬开水汪汪的。淡。" ∷ []
conditions_weathered sweetened = codes "冻过一次，反而更甜。" ∷ codes "挨过那场冷，糖都收进去了。" ∷ []
conditions_weathered sun_scorched = codes "向阳那面晒出一块疤。背面是好的。" ∷ codes "皮有点厚。那阵子太热了。" ∷ []
conditions_weathered _ = []

abbrev pub garden_ordinary : List Text
garden_ordinary =
    codes "园子里没什么事。土是干的。" ∷ codes "今天风不大。叶子偶尔动一下。" ∷ codes "天阴着。园子安静。" ∷ codes "有太阳。地上一格一格的光。" ∷ []

-- A rule: the key words, the kind of weather, and the line for the garden.
pub record WeatherRule : Type 0 where
  pub keywords : List Text
  pub kind : Text
  pub line : Text

-- `_EXTREME_WEATHER_RULES`
abbrev pub extreme_weather_rules : List WeatherRule
extreme_weather_rules =
    record { keywords = codes "冰雹" ∷ []; kind = codes "hail"; line = codes "下了冰雹。砸在叶子上噼里啪啦的。" }
    ∷ record {
      keywords = codes "沙尘" ∷ codes "扬沙" ∷ codes "浮尘" ∷ [];
      kind = codes "dust";
      line = codes "起了沙尘。天是土色的，叶子上积了一层。";
    }
    ∷ record {
      keywords = codes "台风" ∷ codes "飓风" ∷ [];
      kind = codes "storm";
      line = codes "台风过境。园子里什么都在响。";
    }
    ∷ record {
      keywords = codes "暴雨" ∷ codes "大暴雨" ∷ codes "特大暴雨" ∷ [];
      kind = codes "downpour";
      line = codes "下暴雨。地上积了水，土泡软了。";
    }
    ∷ record {
      keywords = codes "强雷阵雨" ∷ codes "大雷" ∷ [];
      kind = codes "thunder";
      line = codes "打雷。雨点很大，砸得叶子直往下弯。";
    }
    ∷ record {
      keywords = codes "暴雪" ∷ codes "大雪" ∷ [];
      kind = codes "snow";
      line = codes "下大雪。园子盖上了一层白。";
    }
    ∷ record {
      keywords = codes "狂风" ∷ codes "大风" ∷ codes "飙风" ∷ codes "强风" ∷ [];
      kind = codes "gale";
      line = codes "刮大风。枝子被压得贴到地上。";
    }
    ∷ record {
      keywords = codes "雪" ∷ codes "雨夹雪" ∷ codes "冻雨" ∷ [];
      kind = codes "snow";
      line = codes "下雪。落在枝上一会儿就化了。";
    }
    ∷ []

abbrev pub cold_snap_c : ℕ
cold_snap_c = 0

abbrev pub heat_wave_c : ℕ
heat_wave_c = 38

-- `_WEATHER_SCARS`, as an association list.
abbrev pub weather_scars : List (Text × Bucket)
weather_scars =
    (codes "hail", half_good)
    ∷ (codes "dust", smaller)
    ∷ (codes "storm", half_good)
    ∷ (codes "downpour", watered_down)
    ∷ (codes "thunder", half_good)
    ∷ (codes "snow", sweetened)
    ∷ (codes "gale", smaller)
    ∷ (codes "cold_snap", sweetened)
    ∷ (codes "heat_wave", sun_scorched)
    ∷ []

abbrev pub stale_dusty_days : ℕ
stale_dusty_days = 10

abbrev pub stale_wilting_days : ℕ
stale_wilting_days = 25

abbrev pub underground_days : ℕ
underground_days = 21

abbrev pub swelling_window_days : ℕ
swelling_window_days = 5

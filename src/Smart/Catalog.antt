-- ===== src/Smart/Catalog.antt =====
-- client/smart/catalog.go: the built-in services, and the choice of services by their names.
use Prim.Native.Char.{code}
use Prim.Native.String.{String}
use pinus_smart_awg.Common.{List, [], if◌then◌else◌, map, ◌++◌, ◌∷◌}
use pinus_smart_awg.Smart.{Service, member}
use pinus_smart_awg.Text.{Bytes, codes}
use pinus_smart_awg.Text.Case.{encode_rune}

-- A literal in UTF-8.
abbrev pub utf8 : String → Bytes
utf8 String.[] = []
utf8 (String.◌∷◌ c s) = encode_rune (code c) ++ utf8 s

abbrev pub texts : List String → List Bytes
texts [] = []
texts (s ∷ ss) = codes s ∷ texts ss

abbrev pub ai_service_id : Bytes
ai_service_id = codes "ai"

abbrev pub discord_service : Service
discord_service = record {
  id = codes "discord";
  name = utf8 "Discord";
  process_names = texts ("Discord.exe" ∷ "DiscordCanary.exe" ∷ "DiscordPTB.exe" ∷ []);
  domains = texts ("discord.com" ∷ "discord.gg" ∷ "dis.gd" ∷ []);
  domain_suffixes = texts (
      ".discord.com" ∷ ".discord.gg" ∷ ".discordapp.com" ∷ ".discordapp.net" ∷ ".discordcdn.com"
      ∷ ".discord.media" ∷ ".discordstatus.com" ∷ ".dis.gd" ∷ []);
}

abbrev pub youtube_service : Service
youtube_service = record {
  id = codes "youtube";
  name = utf8 "YouTube";
  process_names = [];
  domains = texts ("youtube.com" ∷ "youtu.be" ∷ "youtube-nocookie.com" ∷ []);
  domain_suffixes = texts (
      ".youtube.com" ∷ ".youtu.be" ∷ ".youtube-nocookie.com" ∷ ".googlevideo.com" ∷ ".ytimg.com"
      ∷ ".youtubei.googleapis.com" ∷ ".youtube.googleapis.com" ∷ ".ggpht.com" ∷ []);
}

abbrev pub telegram_service : Service
telegram_service = record {
  id = codes "telegram";
  name = utf8 "Telegram";
  process_names = texts ("Telegram.exe" ∷ []);
  domains = texts ("t.me" ∷ "telegram.org" ∷ "telegram.me" ∷ "telegram.dog" ∷ []);
  domain_suffixes =
      texts (".t.me" ∷ ".telegram.org" ∷ ".telegram.me" ∷ ".telegram.dog" ∷ ".tdesktop.com" ∷ []);
}

abbrev pub instagram_service : Service
instagram_service = record {
  id = codes "instagram";
  name = utf8 "Instagram";
  process_names = [];
  domains = texts ("instagram.com" ∷ []);
  domain_suffixes = texts (".instagram.com" ∷ ".cdninstagram.com" ∷ ".fbcdn.net" ∷ []);
}

abbrev pub ai_service : Service
ai_service = record {
  id = codes "ai";
  name = utf8 "Нейросети";
  process_names = texts (
      "ChatGPT.exe" ∷ "Claude.exe" ∷ "Perplexity.exe" ∷ "Copilot.exe" ∷ "Cursor.exe"
      ∷ "Windsurf.exe" ∷ []);
  domains = texts (
      "chatgpt.com" ∷ "openai.com" ∷ "claude.ai" ∷ "anthropic.com" ∷ "gemini.google.com"
      ∷ "aistudio.google.com" ∷ "ai.google.dev" ∷ "generativelanguage.googleapis.com"
      ∷ "notebooklm.google.com" ∷ "grok.com" ∷ "x.ai" ∷ "perplexity.ai" ∷ "pplx.ai" ∷ "deepseek.com"
      ∷ "deepseek.ai" ∷ "copilot.microsoft.com" ∷ "copilot.com" ∷ "mistral.ai" ∷ "poe.com"
      ∷ "character.ai" ∷ "meta.ai" ∷ "huggingface.co" ∷ "midjourney.com" ∷ "suno.com"
      ∷ "runwayml.com" ∷ "leonardo.ai" ∷ "ideogram.ai" ∷ "cursor.com" ∷ "windsurf.com"
      ∷ "codeium.com" ∷ "phind.com" ∷ "kimi.com" ∷ "qwen.ai" ∷ "manus.im" ∷ "genspark.ai"
      ∷ "stability.ai" ∷ "dreamstudio.ai" ∷ "replicate.com" ∷ "fal.ai" ∷ "together.ai" ∷ "groq.com"
      ∷ "cohere.com" ∷ "openrouter.ai" ∷ []);
  domain_suffixes = texts (
      ".chatgpt.com" ∷ ".openai.com" ∷ ".oaistatic.com" ∷ ".oaiusercontent.com" ∷ ".oaistatsig.com"
      ∷ ".openaimerge.com" ∷ ".workos.com" ∷ ".workoscdn.com" ∷ ".claude.ai" ∷ ".anthropic.com"
      ∷ ".claudeusercontent.com" ∷ ".gemini.google.com" ∷ ".aistudio.google.com" ∷ ".ai.google.dev"
      ∷ ".generativelanguage.googleapis.com" ∷ ".notebooklm.google.com" ∷ ".bard.google.com"
      ∷ ".grok.com" ∷ ".x.ai" ∷ ".perplexity.ai" ∷ ".pplx.ai" ∷ ".deepseek.com" ∷ ".deepseek.ai"
      ∷ ".copilot.microsoft.com" ∷ ".copilot.com" ∷ ".githubcopilot.com"
      ∷ ".individual.githubcopilot.com" ∷ ".business.githubcopilot.com"
      ∷ ".enterprise.githubcopilot.com" ∷ ".copilot-proxy.githubusercontent.com"
      ∷ ".origin-tracker.githubusercontent.com" ∷ ".copilot-telemetry.githubusercontent.com"
      ∷ ".cloud.microsoft" ∷ ".mistral.ai" ∷ ".poe.com" ∷ ".character.ai" ∷ ".characterai.io"
      ∷ ".meta.ai" ∷ ".huggingface.co" ∷ ".hf.co" ∷ ".hf.space" ∷ ".midjourney.com"
      ∷ ".midjourneycdn.com" ∷ ".suno.com" ∷ ".suno.ai" ∷ ".runwayml.com" ∷ ".leonardo.ai"
      ∷ ".ideogram.ai" ∷ ".cursor.com" ∷ ".cursor.sh" ∷ ".windsurf.com" ∷ ".codeium.com"
      ∷ ".phind.com" ∷ ".kimi.com" ∷ ".moonshot.ai" ∷ ".moonshot.cn" ∷ ".qwen.ai"
      ∷ ".dashscope.aliyuncs.com" ∷ ".manus.im" ∷ ".genspark.ai" ∷ ".stability.ai"
      ∷ ".dreamstudio.ai" ∷ ".replicate.com" ∷ ".fal.ai" ∷ ".together.ai" ∷ ".groq.com"
      ∷ ".cohere.com" ∷ ".openrouter.ai" ∷ []);
}

abbrev pub builtin_service_catalog : List Service
builtin_service_catalog =
    discord_service ∷ youtube_service ∷ telegram_service ∷ instagram_service ∷ ai_service ∷ []

-- `DefaultServiceIDs` of a catalog
abbrev pub service_ids : List Service → List Bytes
service_ids = map (λ (s : Service). s.id)

-- the services of a catalog that are selected, in the catalog's order
unfoldable pub selected_services : List Bytes → List Service → List Service
unfolding member
selected_services ids [] = []
selected_services ids (s ∷ ss) =
    let rest = selected_services ids ss in if member s.id ids then s ∷ rest else rest
